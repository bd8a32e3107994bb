-- ===== src/Inference/Tests.antt =====
-- Tests and examples for services/inference-service/src/inference_service.
use eucal_ai_backend.Prelude.{
  ℕ, ◌≡◌, refl, String, Option, none, some, [], ◌∷◌, ltb, leb, not, ◌==◌, if◌then◌else◌, ◌+◌,
}
use eucal_ai_backend.Prelude.Keyed.{string_eq}
use eucal_ai_backend.Prelude.Int.{ℤ, pos}
use eucal_ai_backend.Inference.{Python, Raw, RuntimeConfig, weight_list, band_list}
use eucal_ai_backend.Inference.Normalize.{
  normalize_inference_config, resolve_score_band, select_model,
}
use eucal_ai_backend.Prelude.Keyed.{put, mem, find}
use eucal_ai_backend.Prelude.Text.{strip, lstrip_by, rstrip_by, is_space, split_by}
use eucal_ai_backend.Inference.{traverse, zip, partition, contains}
use eucal_ai_backend.Inference.Normalize.{
  validate_weights, read_weights, sum_from, validate_score_bands, read_band,
  validate_tier_model_map, read_tiers, find_band, parse_score_bands, parse_items, parse_range,
}
use eucal_ai_backend.Inference.Reads.{Selects}
use eucal_ai_backend.Inference.Validity.{
  IsValid, normalize_inference_config-IsValid, select_model_lem,
}

-- numbers are the values, and a digit is a text of one
abbrev read_digit : String → Option ℕ
read_digit s = if string_eq.beq s "3" then some 3 else none

abbrev python : Python ℕ ℕ
python = record {
  float = λ v. some v;
  int = λ v. some (pos v);
  str = λ v. if v == 0 then " " else "m";
  float_of_text = read_digit;
  int_of_text = λ s. elim (read_digit s) [ none ↦ none | some n ↦ some (pos n) ];
  leb = leb;
  ltb = ltb;
  add = λ a b. a + b;
  zero = 0;
  one = 1;
  str_of_float = λ a. "n";
  str_of_int = λ a. "n";
  differ = λ a b. not (a == b);
}

-- the last band has a tier that no model is for
abbrev raw : Raw ℕ
raw = record {
  route_order = none;
  weights = some (weight_list (1 ∷ 2 ∷ 0 ∷ 1 ∷ 1 ∷ []));
  score_bands = some (band_list (some (0, 3, 1) ∷ some (4, 6, 2) ∷ some (7, 10, 9) ∷ []));
  score_bands_raw = " 0-3:1,4-6:2,7-10:9";
  tier_model_map = some (some ((1, 1) ∷ (2, 1) ∷ (3, 1) ∷ (4, 1) ∷ (5, 1) ∷ []));
  router_alias = some " ";
}

abbrev config : RuntimeConfig ℕ
config = record {
  router_alias = "auto";
  weights = ("纠错", 1) ∷ ("工具调用", 2) ∷ ("通用任务", 0) ∷ ("任务拆解", 1) ∷ ("编程", 1) ∷ [];
  score_bands_raw = "0-3:1,4-6:2,7-10:9";
  score_bands =
      record { start = 0; end = 3; tier = pos 1 }
      ∷ record { start = 4; end = 6; tier = pos 2 }
      ∷ record { start = 7; end = 10; tier = pos 9 }
      ∷ [];
  tier_model_map = (pos 1, "m") ∷ (pos 2, "m") ∷ (pos 3, "m") ∷ (pos 4, "m") ∷ (pos 5, "m") ∷ [];
}

raw-accepted : normalize_inference_config python raw ≡ some config
unfolding normalize_inference_config validate_weights read_weights traverse zip sum_from
    validate_score_bands read_band validate_tier_model_map read_tiers strip lstrip_by rstrip_by
    is_space put mem
raw-accepted = refl

normalize_inference_config-IsValid_example : IsValid python config
normalize_inference_config-IsValid_example =
    normalize_inference_config-IsValid python raw config raw-accepted

-- a score of the band with the tier 9, for which selecting the model raises
select_model_lem_example :
    (tier : ℤ) × (resolve_score_band python 8 config.score_bands ≡ some tier)
    × Selects tier (select_model python 8 config)
select_model_lem_example = select_model_lem python raw config raw-accepted 8

raised : select_model python 8 config ≡ none
unfolding select_model resolve_score_band find_band find
raised = refl

text_bands :
    (parse_score_bands python "3-3:3,3:3")
    ≡ some (
        record { start = 3; end = 3; tier = pos 3 }
        ∷ record { start = 3; end = 3; tier = pos 3 }
        ∷ [])
unfolding parse_score_bands parse_items parse_range split_by partition contains strip lstrip_by
    rstrip_by is_space
text_bands = refl
