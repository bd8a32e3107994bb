-- ===== src/Router/Responses/Client.antt =====
-- services/router-service/src/services/responses_convert.py: a client of the protocol, which puts
-- the output items together from the events by their output index.
use mathlib.Core.Path.{subst}
use eucal_ai_backend.Prelude.{
  ℕ, ◌+◌, ◌≡◌, ◌≢◌, refl, ap, sym, Bool, true, false, Option, none, some, List, [], ◌∷◌, ◌++◌,
  arith, All, ◌==◌, if◌then◌else◌, inl, inr, Bool-cases, Option-cases,
}
use eucal_ai_backend.Prelude.Keyed.{Table, find, put, nat_eq}
use eucal_ai_backend.Router.Responses.{
  Text, Call, OpenCall, Item, message, function_call, Event, response_created, message_added,
  part_added, text_delta, text_done, part_done, message_done, call_added, arguments_delta,
  arguments_done, call_done, response_completed, ResponsesStreamConverter, no_call, with_arguments,
  calls_of, output_of,
}

abbrev pub text_of : Option Item → Text
text_of none = []
text_of (some (message text)) = text
text_of (some (function_call call)) = []

abbrev pub call_of : Option Item → Call
call_of none = no_call.call
call_of (some (message text)) = no_call.call
call_of (some (function_call call)) = call

-- what a client has after an event
unfoldable pub read : Event → Table ℕ Item → Table ℕ Item
read (response_created resp_id model) items = items
read (message_added id i) items = put i (message []) items
read (part_added id i) items = items
read (text_delta id i text) items = put i (message (text_of (find i items) ++ text)) items
read (text_done id i text) items = put i (message text) items
read (part_done id i text) items = put i (message text) items
read (message_done id i text) items = put i (message text) items
read (call_added i call) items = put i (function_call call) items
read (arguments_delta id call_id i delta) items =
    let call = call_of (find i items) in
    put i (function_call (with_arguments (call.arguments ++ delta) call)) items
read (arguments_done id i arguments) items =
    put i (function_call (with_arguments arguments (call_of (find i items)))) items
read (call_done i call) items = put i (function_call call) items
read (response_completed resp_id model status output usage) items = items

unfoldable pub read_all : List Event → Table ℕ Item → Table ℕ Item
read_all [] items = items
read_all (event ∷ events) items = read_all events (read event items)

pub read_all-append :
    (xs ys : List Event) (items : Table ℕ Item)
    → read_all (xs ++ ys) items ≡ read_all ys (read_all xs items)
unfolding read_all
read_all-append [] ys items = refl
read_all-append (x ∷ xs) ys items = read_all-append xs ys (read x items)

-- what the completions of the response say that the output is
abbrev pub completion : Event → Option (List Item)
completion (response_completed resp_id model status output usage) = some output
completion event = none

unfoldable pub completions : List Event → List (List Item)
completions [] = []
completions (event ∷ events) = elim (completion event) [
  | none ↦ completions events
  | some output ↦ output ∷ completions events
]

pub completions-append :
    (xs ys : List Event) → completions (xs ++ ys) ≡ completions xs ++ completions ys
unfolding completions
completions-append [] ys = refl
completions-append (x ∷ xs) ys = elim (Option-cases (completion x)) [
  | inl other ↦ ground (arith, completions-append xs ys)
  | inr (output, e) ↦ ground (arith, completions-append xs ys)
]

-- the calls, from the output index `k` on
abbrev pub calls_at : (k : ℕ) → Table ℕ OpenCall → Table ℕ Item
calls_at k [] = []
calls_at k ((i, tc) ∷ calls) = (k + i, function_call tc.call) ∷ calls_at k calls

abbrev pub offset_of : (text_started : Bool) → ℕ
offset_of text_started = if text_started then 1 else 0

abbrev pub items : (text_started : Bool) → Text → Table ℕ OpenCall → Table ℕ Item
items text_started content calls =
    if text_started then (0, message content) ∷ calls_at 1 calls else calls_at 0 calls

-- what a client has that has read all that the converter has emitted
abbrev pub items_of : ResponsesStreamConverter → Table ℕ Item
items_of s = items s.text_started s.text_content s.tool_calls

abbrev pub values : Table ℕ Item → List Item
values [] = []
values ((i, item) ∷ items) = item ∷ values items

values-calls_at : (k : ℕ) (calls : Table ℕ OpenCall) → values (calls_at k calls) ≡ calls_of calls
values-calls_at k [] = refl
values-calls_at k ((i, tc) ∷ calls) = ap (λ r. function_call tc.call ∷ r) (values-calls_at k calls)

pub values-items_of : (s : ResponsesStreamConverter) → values (items_of s) ≡ output_of s
values-items_of s = elim (Bool-cases (s.text_started)) [
  | inl on ↦ ground (arith, values-calls_at 1 s.tool_calls)
  | inr off ↦ ground (arith, values-calls_at 0 s.tool_calls)
]

module _ (k i : ℕ) where
  pub put-calls_at :
      (tc : OpenCall) (calls : Table ℕ OpenCall)
      → put (k + i) (function_call tc.call) (calls_at k calls) ≡ calls_at k (put i tc calls)
  unfolding put
  put-calls_at tc [] = refl
  put-calls_at tc ((j, tc') ∷ calls) = elim (Bool-cases (j == i)) [
    | inl same ↦ ground arith
    | inr other ↦
        let other' : ((k + j) == (k + i)) ≡ false = ground (arith) in
        ground (arith, put-calls_at tc calls)
  ]

  pub find-calls_at :
      (tc : OpenCall) (calls : Table ℕ OpenCall)
      → find i calls ≡ some tc
      → find (k + i) (calls_at k calls) ≡ some (function_call tc.call)
  unfolding find
  find-calls_at tc [] h = ground arith
  find-calls_at tc ((j, tc') ∷ calls) h = elim (Bool-cases (j == i)) [
    | inl same ↦ ground arith
    | inr other ↦
        let other' : ((k + j) == (k + i)) ≡ false = ground (arith) in
        ground (arith, find-calls_at tc calls)
  ]

-- an output index that is that of the call `i`
module _ (i o : ℕ) (tc : OpenCall) (content : Text) (calls : Table ℕ OpenCall) where
  pub put-items :
      (text_started : Bool)
      → o ≡ offset_of text_started + i
      → put o (function_call tc.call) (items text_started content calls)
        ≡ items text_started content (put i tc calls)
  unfolding put
  put-items true e =
      let past : (0 == (1 + i)) ≡ false = ground arith in
      let written : put (1 + i) (function_call tc.call) (items true content calls)
          ≡ items true content (put i tc calls) =
        rw past (ap (λ r. (0, message content) ∷ r) (put-calls_at 1 i tc calls)) in
      subst
        (λ (o' : ℕ).
          put o' (function_call tc.call) (items true content calls)
          ≡ items true content (put i tc calls))
        (sym e) written
  put-items false e = rw e (put-calls_at 0 i tc calls)

  pub find-items :
      (text_started : Bool)
      → o ≡ offset_of text_started + i
      → find i calls ≡ some tc
      → find o (items text_started content calls) ≡ some (function_call tc.call)
  unfolding find
  find-items true e h =
      let past : (0 == (1 + i)) ≡ false = ground arith in
      let found : find (1 + i) (items true content calls) ≡ some (function_call tc.call) =
        rw past (find-calls_at 1 i tc calls h) in
      subst (λ (o' : ℕ). find o' (items true content calls) ≡ some (function_call tc.call)) (sym e)
        found
  find-items false e h = rw e (find-calls_at 0 i tc calls h)

module _ (i : ℕ) {V : Type 0} where
  pub found_nonempty : (v : V) (t : Table ℕ V) → find i t ≡ some v → t ≢ []
  unfolding find
  found_nonempty v [] h e = ground arith
  found_nonempty v (entry ∷ t) h e = cc

  pub put_found : (v : V) (t : Table ℕ V) → find i t ≡ some v → put i v t ≡ t
  unfolding find put
  put_found v [] h = ground arith
  put_found v ((j, w) ∷ t) h = ground (arith, put_found v t)

-- Every call has its index, behind the message, if there is one.
abbrev pub IsPlaced : (k : ℕ) → Table ℕ OpenCall → Type 0
IsPlaced k calls = All (λ e. e.1.output_index ≡ k + e.0) calls

module _ (k i : ℕ) (tc : OpenCall) where
  pub IsPlaced-find :
      (calls : Table ℕ OpenCall)
      → IsPlaced k calls
      → find i calls ≡ some tc
      → tc.output_index ≡ k + i
  unfolding find
  IsPlaced-find [] placed h = ground arith
  IsPlaced-find ((j, tc') ∷ calls) (p, placed) h = elim (Bool-cases (j == i)) [
    | inl same ↦ ground arith
    | inr other ↦ IsPlaced-find calls placed (ground arith)
  ]

  pub IsPlaced-put :
      (calls : Table ℕ OpenCall)
      → tc.output_index ≡ k + i
      → IsPlaced k calls
      → IsPlaced k (put i tc calls)
  unfolding put
  IsPlaced-put [] e placed = (e, tt)
  IsPlaced-put ((j, tc') ∷ calls) e (p, placed) = elim (Bool-cases (j == i)) [
    | inl same ↦ ground arith
    | inr other ↦ ground (arith, IsPlaced-put calls e placed)
  ]
