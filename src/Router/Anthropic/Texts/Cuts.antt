-- ===== src/Router/Anthropic/Texts/Cuts.antt =====
-- services/router-service/src/services/anthropic_convert.py: the texts of events,
-- and tags in parts of a text.
use mathlib.Core.List.{append_assoc}
use eucal_ai_backend.Prelude.{
  ◌≡◌, refl, sym, ap, ◌∙◌, none, some, List, [], ◌∷◌, ◌++◌, inl, inr, arith, Option-cases,
}
use eucal_ai_backend.Prelude.Keyed.{nat_eq}
use eucal_ai_backend.Router.Anthropic.Tags.{Text, drop_prefix, partition}
use eucal_ai_backend.Router.Anthropic.{Event, text_delta}

-- the text of the events, put together
unfoldable pub texts : List Event → Text
texts [] = []
texts (text_delta i t ∷ events) = t ++ texts events
texts (event ∷ events) = texts events

pub texts-append : (xs ys : List Event) → texts (xs ++ ys) ≡ texts xs ++ texts ys
unfolding texts
texts-append [] ys = refl
texts-append (text_delta i t ∷ xs) ys =
    ap (λ z. t ++ z) (texts-append xs ys) ∙ sym (append_assoc t (texts xs) (texts ys))
texts-append (event ∷ xs) ys = texts-append xs ys

pub drop_prefix-append :
    (tag xs ys after : Text)
    → drop_prefix tag xs ≡ some after
    → drop_prefix tag (xs ++ ys) ≡ some (after ++ ys)
unfolding drop_prefix
drop_prefix-append [] xs ys after h = ground arith
drop_prefix-append (t ∷ tag) [] ys after h = ground arith
drop_prefix-append (t ∷ tag) (x ∷ xs) ys after h =
    ground (arith, drop_prefix-append tag xs ys after)

module _ (tag : Text) where
  pub partition_suffix : (xs ys : Text) → partition tag (xs ++ ys) ≡ none → partition tag ys ≡ none
  unfolding partition
  partition_suffix [] ys h = h
  partition_suffix (x ∷ xs) ys h =
      partition_suffix xs ys (elim (Option-cases (drop_prefix tag (x ∷ (xs ++ ys)))) [
        | inl no_tag ↦ elim (Option-cases (partition tag (xs ++ ys))) [
          | inl clean ↦ clean
          | inr (found, there) ↦ ground arith
        ]
        | inr (after, there) ↦ ground arith
      ])

  pub partition_prefix : (xs ys : Text) → partition tag (xs ++ ys) ≡ none → partition tag xs ≡ none
  unfolding partition
  partition_prefix [] ys h = refl
  partition_prefix (x ∷ xs) ys h = elim (Option-cases (drop_prefix tag (x ∷ xs))) [
    | inl no_tag ↦ ground (arith, partition_prefix xs ys, partition_suffix (x ∷ []) (xs ++ ys) h)
    | inr (after, there) ↦ ground (arith, drop_prefix-append tag (x ∷ xs) ys after there)
  ]
