-- ===== src/Inference/Normalize.antt =====
-- services/inference-service/src/inference_service: `normalize_inference_config` and what it calls
-- (utils/runtime_config.py), the score bands (utils/scoring.py), and how
-- services/router_engine.py makes a model of a score.
use Prim.Native.String.{◌++◌}
use eucal_ai_backend.Prelude.{
  String, Bool, false, not, ◌&&◌, ◌||◌, Option, none, some, List, [], ◌∷◌, is_nonempty,
  if◌then◌else◌,
}
use eucal_ai_backend.Prelude.Int.{ℤ}
use eucal_ai_backend.Prelude.Keyed.{Table, find, put, keys, string_eq}
use eucal_ai_backend.Inference.{
  Python, RawWeights, RawBands, Raw, Band, RuntimeConfig, fiveway_route_order, ◌>>=◌, guard,
  traverse, zip, partition, contains, is_comma, is_colon, is_dash, int_eq, tiers, all_in,
  or_default, is_route_order, weight_list, weight_dict, no_weights, band_list, band_text,
}
use eucal_ai_backend.Prelude.Text.{is_empty, split_by, strip}

module _ {V F : Type 0} (py : Python V F) where
  unfoldable pub sum_from : F → List F → F
  sum_from total [] = total
  sum_from total (x ∷ xs) = sum_from (py.add total x) xs

  abbrev pub sum : List F → F
  sum xs = sum_from py.zero xs

  abbrev pub amounts : Table String F → List F
  amounts [] = []
  amounts ((name, x) ∷ t) = x ∷ amounts t

  abbrev pub has_negative : List F → Bool
  has_negative [] = false
  has_negative (x ∷ xs) = py.ltb x py.zero || has_negative xs

  -- the weights of the routes, in their order
  unfoldable pub weights_by_name : List String → Table String V → Option (Table String F)
  weights_by_name [] raw = some []
  weights_by_name (name ∷ names) raw =
      let rest = weights_by_name names raw in
      find name raw >>= λ v. py.float v >>= λ x. rest >>= λ t. some ((name, x) ∷ t)

  -- `FIVEWAY_DEFAULT_WEIGHTS`, for the names of the routes
  abbrev pub default_weights : List String → Table String F
  default_weights [] = []
  default_weights (name ∷ names) = (name, py.one) ∷ default_weights names

  unfoldable pub read_weights : Option (RawWeights V) → Option (Table String F)
  read_weights none = some (default_weights fiveway_route_order)
  read_weights (some (weight_list xs)) = traverse py.float xs >>= zip fiveway_route_order
  read_weights (some (weight_dict t)) = weights_by_name fiveway_route_order t
  read_weights (some no_weights) = none

  -- `_validate_weights`; `none` are the default weights
  unfoldable pub validate_weights : Option (RawWeights V) → Option (Table String F)
  validate_weights raw = read_weights raw >>= λ weights.
      guard (not (has_negative (amounts weights)))
        (guard (not (py.leb (sum (amounts weights)) py.zero)) (some weights))

  unfoldable pub parse_range : String → Option (F × F)
  unfolding is_dash
  parse_range left =
      if contains is_dash left
      then (let (start_raw, end_raw) = partition is_dash left in
          py.float_of_text (strip start_raw) >>= λ start.
          py.float_of_text (strip end_raw) >>= λ end. some (start, end))
      else (py.float_of_text (strip left) >>= λ x. some (x, x))

  -- the loop of `parse_score_bands`
  unfoldable pub parse_items : List String → Option (List (Band F))
  unfolding is_colon
  parse_items [] = some []
  parse_items (item ∷ items) =
      let rest = parse_items items in
      let (left, right) = partition is_colon item in
      if is_empty left || is_empty right
      then rest
      else (py.int_of_text (strip right) >>= λ tier. parse_range left >>= λ range.
          guard (not (py.ltb range.1 range.0)) (
            rest >>= λ bands.
            some (record { start = range.0; end = range.1; tier = tier } ∷ bands)))

  unfoldable pub parse_score_bands : String → Option (List (Band F))
  unfolding is_comma
  parse_score_bands raw =
      parse_items (split_by is_comma raw) >>= λ bands. guard (is_nonempty bands) (some bands)

  unfoldable pub read_band : Option (V × V × V) → Option (Band F)
  read_band none = none
  read_band (some (start_raw, end_raw, tier_raw)) = py.float start_raw >>= λ start.
      py.float end_raw >>= λ end.
      py.int tier_raw >>= λ tier. some (record { start = start; end = end; tier = tier })

  unfoldable pub show_band : Band F → String
  show_band b =
      (if py.differ b.start b.end
        then py.str_of_float b.start ++ ("-" ++ py.str_of_float b.end)
        else py.str_of_float b.start)
      ++ (":" ++ py.str_of_int b.tier)

  -- `",".join(pieces)`
  unfoldable pub show_bands : List (Band F) → String
  unfolding show_band
  show_bands [] = ""
  show_bands (b ∷ []) = show_band b
  show_bands (b ∷ c ∷ bands) = show_band b ++ ("," ++ show_bands (c ∷ bands))

  -- `_validate_score_bands`
  unfoldable pub validate_score_bands :
      RawBands V → (score_bands_raw_hint : String) → Option (List (Band F) × String)
  validate_score_bands (band_list items) hint = traverse read_band items >>= λ bands.
      guard (is_nonempty bands) (some (bands, if is_empty hint then show_bands bands else hint))
  validate_score_bands (band_text text) hint =
      parse_score_bands (strip text) >>= λ bands. some (bands, strip text)

  -- the loop of `_validate_tier_model_map`, with the entries that are read already
  unfoldable pub read_tiers : Table V V → Table ℤ String → Option (Table ℤ String)
  read_tiers [] tier_model_map = some tier_model_map
  read_tiers ((key, value) ∷ entries) tier_model_map =
      let model_name = strip (py.str value) in
      let next = λ (tier : ℤ). read_tiers entries (put tier model_name tier_model_map) in
      py.int key >>= λ tier. guard (not (is_empty model_name)) (next tier)

  -- `_validate_tier_model_map`
  unfoldable pub validate_tier_model_map : Option (Table V V) → Option (Table ℤ String)
  validate_tier_model_map none = none
  validate_tier_model_map (some raw) = read_tiers raw [] >>= λ tier_model_map.
      guard (all_in tiers (keys tier_model_map) && all_in (keys tier_model_map) tiers)
        (some tier_model_map)

  -- `normalize_inference_config`, whose `model_providers` is always empty
  unfoldable pub normalize_inference_config : Raw V → Option (RuntimeConfig F)
  normalize_inference_config raw = guard (is_route_order raw.route_order) (
      validate_weights raw.weights >>= λ weights. raw.score_bands >>= λ value.
      validate_score_bands value (strip raw.score_bands_raw) >>= λ bands.
      raw.tier_model_map >>= λ tier_map_raw.
      validate_tier_model_map tier_map_raw >>= λ tier_model_map. some (record {
        router_alias = or_default raw.router_alias;
        weights = weights;
        score_bands_raw = bands.1;
        score_bands = bands.0;
        tier_model_map = tier_model_map;
      }))

  abbrev pub last_tier : Band F → List (Band F) → ℤ
  last_tier b [] = b.tier
  last_tier b (c ∷ bands) = last_tier c bands

  unfoldable pub find_band : F → List (Band F) → Option ℤ
  find_band score [] = none
  find_band score (b ∷ bands) =
      let rest = find_band score bands in
      if py.leb b.start score && py.leb score b.end then some b.tier else rest

  -- `resolve_score_band`; `none` is the `IndexError` of no bands
  unfoldable pub resolve_score_band : F → List (Band F) → Option ℤ
  resolve_score_band score [] = none
  resolve_score_band score (b ∷ bands) = elim (find_band score (b ∷ bands)) [
    | some tier ↦ some tier
    | none ↦ some (if py.ltb score b.start then b.tier else last_tier b bands)
  ]

  -- The end of `predict_chat_messages`; `none` is a `KeyError` or an `IndexError`.
  unfoldable pub select_model : (total_score_0_10 : F) → RuntimeConfig F → Option (ℤ × String)
  select_model total_score_0_10 config =
      resolve_score_band total_score_0_10 config.score_bands >>= λ routing_tier.
      find routing_tier config.tier_model_map >>= λ selected_model.
      some (routing_tier, selected_model)
