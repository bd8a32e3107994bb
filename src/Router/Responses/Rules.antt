-- ===== src/Router/Responses/Rules.antt =====
-- services/router-service/src/services/responses_convert.py: rules for
-- methods of ResponsesStreamConverter that keep a client up with it.
use eucal_ai_backend.Prelude.{
  ℕ, ◌≡◌, refl, ap, ◌∙◌, Bool, true, false, Option, none, some, List, [], ◌∷◌, if◌then◌else◌, ◌⊎◌,
  inl, inr, Bool-cases,
}
use eucal_ai_backend.Prelude.Keyed.{Table, find, mem, nat_eq}
use eucal_ai_backend.Router.Responses.{
  Text, ◌>>◌, skip, OpenCall, Item, ResponsesStreamConverter, Emit, or_message,
}
use eucal_ai_backend.Router.Responses.Client.{
  read_all, read_all-append, items_of, values, completions, completions-append, IsPlaced,
}

abbrev pub is_some : {A : Type 0} → Option A → Bool
is_some none = false
is_some (some a) = true

-- Whether the text and whether calls have started: `text` and `tools`. What is started is known.
pub record IsView (text tools text_started finished : Bool) (content : Text)
    (calls : Table ℕ OpenCall) (started : List ℕ) : Type 0 where
  pub live : finished ≡ false
  pub text_is : text_started ≡ text
  pub no_tools : tools ≡ false → calls ≡ []
  pub no_text : text_started ≡ false → content ≡ []
  pub placed : IsPlaced (if text_started then 1 else 0) calls
  pub listed : (i : ℕ) → mem i started ≡ is_some (find i calls)

abbrev pub Views : (text tools : Bool) → ResponsesStreamConverter → Type 0
Views text tools s =
    IsView text tools s.text_started s.finished s.text_content s.tool_calls s.tool_started

-- The client keeps up, and the response is not completed.
abbrev pub Reads : ResponsesStreamConverter → Emit → Type 0
Reads s m = (read_all (m s).0 (items_of s) ≡ items_of (m s).1) × (completions (m s).0 ≡ [])

-- what a completion says after what a client has
abbrev pub said : Table ℕ Item → List Item
said items = or_message [] (values items)

-- a method that keeps a client up with the converter
pub record Follows (P Q : ResponsesStreamConverter → Type 0) (m : Emit) : Type 0 where
  pub apply : (s : ResponsesStreamConverter) → P s → Reads s m × Q (m s).1

-- The client keeps up, the response is completed, and its one completion says what the client has.
abbrev pub Completed : ResponsesStreamConverter → Emit → Type 0
Completed s m =
    (read_all (m s).0 (items_of s) ≡ items_of (m s).1)
    × (completions (m s).0 ≡ said (items_of (m s).1) ∷ [])
    × ((m s).1.finished ≡ true)

-- a method that completes the response
pub record Completes (P : ResponsesStreamConverter → Type 0) (m : Emit) : Type 0 where
  pub apply : (s : ResponsesStreamConverter) → P s → Completed s m

-- a method that may complete the response
pub record Settles (P Q : ResponsesStreamConverter → Type 0) (m : Emit) : Type 0 where
  pub apply : (s : ResponsesStreamConverter) → P s → (Reads s m × Q (m s).1) ⊎ Completed s m

module _ (s : ResponsesStreamConverter) (m k : Emit) (reads : Reads s m) where
  read_all->> :
      read_all (k (m s).1).0 (items_of (m s).1) ≡ items_of (k (m s).1).1
      → read_all ((m >> k) s).0 (items_of s) ≡ items_of ((m >> k) s).1
  read_all->> more =
      let events = (k (m s).1).0 in
      read_all-append (m s).0 events (items_of s) ∙ ap (read_all events) reads.0 ∙ more

  completions->> : completions ((m >> k) s).0 ≡ completions (k (m s).1).0
  completions->> = completions-append (m s).0 (k (m s).1).0 ∙ rw reads.1 refl

  pub Reads->> : Reads (m s).1 k → Reads s (m >> k)
  Reads->> (more, none_there) = (read_all->> more, completions->> ∙ none_there)

  pub Completed->> : Completed (m s).1 k → Completed s (m >> k)
  Completed->> (more, says, over) = (read_all->> more, completions->> ∙ says, over)

-- after the end, nothing
pub Completed-skip :
    (s : ResponsesStreamConverter) (m k : Emit)
    → Completed s m
    → k (m s).1 ≡ ([], (m s).1)
    → Completed s (m >> k)
unfolding read_all completions
Completed-skip s m k (reads, says, over) idle =
    let events = (m s).0 in
    rw idle (
      read_all-append events [] (items_of s) ∙ reads,
      completions-append events [] ∙ rw says refl,
      over,
    )

module _ {P Q R : ResponsesStreamConverter → Type 0} where
  pub Follows->> : {m k : Emit} → Follows P Q m → Follows Q R k → Follows P R (m >> k)
  Follows->> {m} {k} hm hk = record {
    apply = λ s p.
        let (reads, q) = hm.apply s p in
        let (reads', r) = hk.apply (m s).1 q in (Reads->> s m k reads reads', r);
  }

  pub Follows->>-Settles : {m k : Emit} → Follows P Q m → Settles Q R k → Settles P R (m >> k)
  Follows->>-Settles {m} {k} hm hk = record {
    apply = λ s p.
        let (reads, q) = hm.apply s p in
        elim (hk.apply (m s).1 q) [
          | inl (reads', r) ↦ inl (Reads->> s m k reads reads', r)
          | inr over ↦ inr (Completed->> s m k reads over)
        ];
  }

module _ {P Q : ResponsesStreamConverter → Type 0} where
  pub Follows->>-Completes : {m k : Emit} → Follows P Q m → Completes Q k → Completes P (m >> k)
  Follows->>-Completes {m} {k} hm hk = record {
    apply = λ s p. let (reads, q) = hm.apply s p in Completed->> s m k reads (hk.apply (m s).1 q);
  }

  pub Settles-Follows : {m : Emit} → Follows P Q m → Settles P Q m
  Settles-Follows h = record { apply = λ s p. inl (h.apply s p) }

  pub Settles-Completes : {m : Emit} → Completes P m → Settles P Q m
  Settles-Completes h = record { apply = λ s p. inr (h.apply s p) }

  pub Settles-if :
      (test : ResponsesStreamConverter → Bool) {m k : Emit}
      → Settles P Q m
      → Settles P Q k
      → Settles P Q (λ s. if test s then m s else k s)
  Settles-if test {m} {k} hm hk = record {
    apply = λ s h. elim (Bool-cases (test s)) [
      | inl on ↦ rw on (hm.apply s h)
      | inr off ↦ rw off (hk.apply s h)
    ];
  }

  pub Follows-skip : ((s : ResponsesStreamConverter) → P s → Q s) → Follows P Q skip
  unfolding read_all completions
  Follows-skip f = record { apply = λ s h. ((refl, refl), f s h) }

  pub Follows-if :
      (test : ResponsesStreamConverter → Bool) {m k : Emit}
      → Follows P Q m
      → Follows P Q k
      → Follows P Q (λ s. if test s then m s else k s)
  Follows-if test {m} {k} hm hk = record {
    apply = λ s h. elim (Bool-cases (test s)) [
      | inl on ↦ rw on (hm.apply s h)
      | inr off ↦ rw off (hk.apply s h)
    ];
  }
