-- ===== src/Inference/Validity.antt =====
-- services/inference-service/src/inference_service/utils/runtime_config.py: what a configuration
-- that is accepted has, and when it gives a score a model.
use eucal_ai_backend.Prelude.{
  some_injective, ◌≡◌, ap, sym, ◌∙◌, String, true, false, not, ◌&&◌, Option, none, some, List, [],
  ◌∷◌, arith, All, is_nonempty, if◌then◌else◌,
}
use eucal_ai_backend.Prelude.Int.{ℤ}
use eucal_ai_backend.Prelude.Keyed.{All-put, Table, find, put, keys, string_eq}
use eucal_ai_backend.Prelude.Text.{is_empty, strip, split_by}
use eucal_ai_backend.Inference.{
  Python, is_comma, RawWeights, weight_list, weight_dict, no_weights, RawBands, band_list,
  band_text, Raw, Band, RuntimeConfig, fiveway_route_order, traverse, zip, int_eq, tiers, all_in,
  or_default, is_route_order,
}
use eucal_ai_backend.Inference.Normalize.{
  parse_items, sum, amounts, has_negative, weights_by_name, read_weights, validate_weights,
  parse_score_bands, read_band, validate_score_bands, read_tiers, validate_tier_model_map,
  normalize_inference_config, last_tier, find_band, resolve_score_band, select_model,
}
use eucal_ai_backend.Inference.Reads.{
  guard-some, bind_some, or_default-nonempty, all_in-Named, find-Selects, resolved, Named, Selects,
}

module _ {V F : Type 0} (py : Python V F) where
  -- what a tier map has, whose entries are read
  read_tiers-nonempty :
      (entries : Table V V) (m t : Table ℤ String)
      → All (λ r. is_empty r.1 ≡ false) m
      → read_tiers py entries m ≡ some t
      → All (λ r. is_empty r.1 ≡ false) t
  unfolding read_tiers
  read_tiers-nonempty [] m t all h = ground (arith, all)
  read_tiers-nonempty ((key, value) ∷ entries) m t all h =
      let (tier, read, h') = bind_some (py.int key) _ t h in
      let (named, h'') = guard-some (not (is_empty (strip (py.str value)))) _ t h' in
      read_tiers-nonempty entries (put tier (strip (py.str value)) m) t
        (All-put (λ name. is_empty name ≡ false) tier (strip (py.str value)) m (ground arith) all)
        h''

  unfoldable pub Sums : Table String F → Type 0
  Sums weights =
      (has_negative py (amounts py weights) ≡ false)
      × (py.leb (sum py (amounts py weights)) py.zero ≡ false)

  validate_weights_lem :
      (raw : Option (RawWeights V)) (weights : Table String F)
      → validate_weights py raw ≡ some weights
      → (read_weights py raw ≡ some weights) × Sums weights
  unfolding validate_weights Sums
  validate_weights_lem raw weights h =
      let (read, is_read, h1) = bind_some (read_weights py raw) _ weights h in
      let (a, h2) = guard-some (not (has_negative py (amounts py read))) _ weights h1 in
      let (b, h3) = guard-some (not (py.leb (sum py (amounts py read)) py.zero)) _ weights h2 in
      rw (← some_injective read weights h3) (is_read, (ground arith, ground arith))

  zip-keys :
      {A : Type 0} (names : List String) (xs : List A) (t : Table String A)
      → zip names xs ≡ some t
      → keys t ≡ names
  unfolding zip
  zip-keys [] [] t h = ap keys (sym (some_injective [] t h))
  zip-keys [] (x ∷ xs) t h = ground arith
  zip-keys (name ∷ names) [] t h = ground arith
  zip-keys (name ∷ names) (x ∷ xs) t h =
      let (rest, is_rest, h1) = bind_some (zip names xs) _ t h in
      ap keys (sym (some_injective ((name, x) ∷ rest) t h1))
      ∙ ap (λ ks. name ∷ ks) (zip-keys names xs rest is_rest)

  weights_by_name-keys :
      (names : List String) (raw : Table String V) (t : Table String F)
      → weights_by_name py names raw ≡ some t
      → keys t ≡ names
  unfolding weights_by_name
  weights_by_name-keys [] raw t h = ap keys (sym (some_injective [] t h))
  weights_by_name-keys (name ∷ names) raw t h =
      let (v, is_v, h1) = bind_some (find name raw) _ t h in
      let (x, is_x, h2) = bind_some (py.float v) _ t h1 in
      let (rest, is_rest, h3) = bind_some (weights_by_name py names raw) _ t h2 in
      ap keys (sym (some_injective ((name, x) ∷ rest) t h3))
      ∙ ap (λ ks. name ∷ ks) (weights_by_name-keys names raw rest is_rest)

  read_weights-keys :
      (raw : Option (RawWeights V)) (weights : Table String F)
      → read_weights py raw ≡ some weights
      → keys weights ≡ fiveway_route_order
  unfolding read_weights
  read_weights-keys none weights h = ap keys (sym (some_injective _ weights h))
  read_weights-keys (some (weight_list xs)) weights h =
      let (floats, is_floats, h1) = bind_some (traverse py.float xs) _ weights h in
      zip-keys fiveway_route_order floats weights h1
  read_weights-keys (some (weight_dict t)) weights h =
      weights_by_name-keys fiveway_route_order t weights h
  read_weights-keys (some no_weights) weights h = ground arith

  validate_score_bands-nonempty :
      (raw : RawBands V) (hint : String) (bands : List (Band F) × String)
      → validate_score_bands py raw hint ≡ some bands
      → is_nonempty bands.0 ≡ true
  unfolding validate_score_bands parse_score_bands
  validate_score_bands-nonempty (band_list items) hint bands h =
      let (read, is_read, h1) = bind_some (traverse (read_band py) items) _ bands h in
      let (full, h2) = guard-some (is_nonempty read) _ bands h1 in
      rw (← some_injective _ bands h2) full
  validate_score_bands-nonempty (band_text text) hint bands h =
      let (read, is_read, h1) = bind_some (parse_score_bands py (strip text)) _ bands h in
      let (items, is_items, h2) =
        bind_some (parse_items py (split_by is_comma (strip text))) _ read is_read in
      let (full, h3) = guard-some (is_nonempty items) _ read h2 in
      rw (← some_injective _ bands h1) (rw (← some_injective items read h3) full)

  -- what a configuration that is accepted has
  unfoldable pub IsValid : RuntimeConfig F → Type 0
  IsValid c =
      (keys c.weights ≡ fiveway_route_order)
      × Sums c.weights
      × (is_nonempty c.score_bands ≡ true)
      × (is_empty c.router_alias ≡ false)
      × All (Named c.tier_model_map) tiers
      × (all_in (keys c.tier_model_map) tiers ≡ true)

  validate_tier_model_map_lem :
      (raw : Option (Table V V)) (m : Table ℤ String)
      → validate_tier_model_map py raw ≡ some m
      → All (Named m) tiers × (all_in (keys m) tiers ≡ true)
  unfolding validate_tier_model_map
  validate_tier_model_map_lem none m h = ground arith
  validate_tier_model_map_lem (some raw) m h =
      let (read, is_read, h1) = bind_some (read_tiers py raw []) _ m h in
      let (same, h2) = guard-some (all_in tiers (keys read) && all_in (keys read) tiers) _ m h1 in
      let named = read_tiers-nonempty raw [] read tt is_read in
      rw (← some_injective read m h2) (all_in-Named read tiers named (ground arith), ground arith)

  IsValid-of_parts :
      (raw : Raw V) (weights : Table String F) (bands : List (Band F) × String)
      (map_raw : Option (Table V V)) (value : RawBands V) (m : Table ℤ String) (c : RuntimeConfig F)
      → validate_weights py raw.weights ≡ some weights
      → validate_score_bands py value (strip raw.score_bands_raw) ≡ some bands
      → validate_tier_model_map py map_raw ≡ some m
      → some (record {
        router_alias = or_default raw.router_alias;
        weights = weights;
        score_bands_raw = bands.1;
        score_bands = bands.0;
        tier_model_map = m;
      })
        ≡ some c
      → IsValid c
  unfolding IsValid
  IsValid-of_parts raw weights bands map_raw value m c is_weights is_bands is_m h =
      let (read, sums) = validate_weights_lem raw.weights weights is_weights in
      let (named, only) = validate_tier_model_map_lem map_raw m is_m in
      rw (← some_injective _ c h) (
        read_weights-keys raw.weights weights read,
        sums,
        validate_score_bands-nonempty value (strip raw.score_bands_raw) bands is_bands,
        or_default-nonempty raw.router_alias,
        named,
        only,
      )

  -- A configuration that `normalize_inference_config` accepts has a weight for each of the five
  -- routes, in their order; no weight is negative, and their sum is not zero or less. It has a
  -- score band, an alias, a model with a name for each tier from 1 to 5, and no other tier.
  pub normalize_inference_config-IsValid :
      (raw : Raw V) (c : RuntimeConfig F) → normalize_inference_config py raw ≡ some c → IsValid c
  unfolding normalize_inference_config
  normalize_inference_config-IsValid raw c h =
      let (ordered, h1) = guard-some (is_route_order raw.route_order) _ c h in
      let (weights, is_weights, h2) = bind_some (validate_weights py raw.weights) _ c h1 in
      let (value, is_value, h3) = bind_some raw.score_bands _ c h2 in
      let (bands, is_bands, h4) =
        bind_some (validate_score_bands py value (strip raw.score_bands_raw)) _ c h3 in
      let (map_raw, is_map_raw, h5) = bind_some raw.tier_model_map _ c h4 in
      let (m, is_m, h6) = bind_some (validate_tier_model_map py map_raw) _ c h5 in
      IsValid-of_parts raw weights bands map_raw value m c is_weights is_bands is_m h6

  resolve_score_band_total :
      (score : F) (bands : List (Band F))
      → is_nonempty bands ≡ true
      → (tier : ℤ) × (resolve_score_band py score bands ≡ some tier)
  unfolding resolve_score_band
  resolve_score_band_total score [] full = ground arith
  resolve_score_band_total score (b ∷ bands) full =
      resolved (find_band py score (b ∷ bands))
        (if py.ltb score b.start then b.tier else last_tier py b bands)

  -- In a configuration that `normalize_inference_config` accepts, every score is given a tier by
  -- its bands. If that tier is one from 1 to 5, the score is given this tier and a model that has
  -- a name; otherwise selecting the model raises.
  pub select_model_lem :
      (raw : Raw V) (c : RuntimeConfig F)
      → normalize_inference_config py raw ≡ some c
      → (score : F)
      → (tier : ℤ) × (resolve_score_band py score c.score_bands ≡ some tier)
        × Selects tier (select_model py score c)
  unfolding select_model Selects IsValid Named
  select_model_lem raw c h score =
      let (_, _, full, _, named, only) = normalize_inference_config-IsValid raw c h in
      let (tier, is_tier) = resolve_score_band_total score c.score_bands full in
      (tier, is_tier, rw is_tier (find-Selects c.tier_model_map tier named only))
