-- ===== src/Receiving/Payloads.antt =====
-- The output payloads of the agent's data, which it numbers, and of the messages that carry it.
use mathlib.Core.List.{map}
use ssmlib.Common.{
  ℕ, zero, suc, ◌+◌, ◌-◌, ◌≤◌, ◌≡◌, refl, sym, ap, ◌∙◌, Bytes, List, [], ◌∷◌, ◌++◌, append_assoc,
  length, All, PrefixOf, ◌==◌, if◌then◌else◌, Bool-cases, inl, inr, arith,
}
use ssmlib.Common.Words.{u64}
use ssmlib.Errors.{Error}
use ssmlib.Messages.PayloadType
use ssmlib.Messages.Message.{AgentMessage}
use ssmlib.Messages.Create.{ok, err}
use ssmlib.Session.Incoming.Order.{Consecutive}
use ssmlib.Handler.Copy.Output.{payloads}

-- What the agent numbers: a payload type and a payload for each sequence number.
abbrev pub Numbered : Type 0
Numbered = ℕ → ℕ × Bytes

abbrev pub HasContent : Numbered → AgentMessage → Type 0
HasContent stream msg = (msg.payload_type, msg.payload) ≡ stream msg.sequence_number

abbrev pub with_output : ℕ × Bytes → List Bytes → List Bytes
with_output (payload_type, payload) rest =
    if payload_type == PayloadType.output then payload ∷ rest else rest

pub with_output-++ :
    (x : ℕ × Bytes) (front back : List Bytes)
    → with_output x (front ++ back) ≡ with_output x front ++ back
with_output-++ (t, payload) front back = elim (Bool-cases (t == PayloadType.output)) [
  | inl o ↦ rw o refl
  | inr o ↦ rw o refl
]

-- The output payloads of `n` numbers of the stream, from `i` on.
abbrev pub outputs : Numbered → ℕ → ℕ → List Bytes
outputs stream i zero = []
outputs stream i (suc n) = with_output (stream (u64 i)) (outputs stream (i + 1) n)

pub payloads-map :
    (ms : List AgentMessage) (es : List Error)
    → payloads (map ok ms ++ map err es) ≡ payloads (map ok ms)
payloads-map [] [] = refl
payloads-map [] (e ∷ es) = refl
payloads-map (m ∷ ms) es = rw (payloads-map ms es)

pub payloads-append :
    (xs ys : List AgentMessage)
    → payloads (map ok (xs ++ ys)) ≡ payloads (map ok xs) ++ payloads (map ok ys)
payloads-append [] ys = refl
payloads-append (x ∷ xs) ys = elim (Bool-cases (x.payload_type == PayloadType.output)) [
  | inl o ↦ rw o (ap (λ l. x.payload ∷ l) (payloads-append xs ys))
  | inr o ↦ rw o (payloads-append xs ys)
]

pub payloads-outputs :
    (stream : Numbered) (i : ℕ) (ms : List AgentMessage)
    → Consecutive i ms
    → All (HasContent stream) ms
    → payloads (map ok ms) ≡ outputs stream i (length ms)
payloads-outputs stream i [] c a = refl
payloads-outputs stream i (m ∷ ms) c a =
    let rest = payloads-outputs stream (i + 1) ms c.1 a.1 in
    let content : (m.payload_type, m.payload) ≡ stream (u64 i) = a.0 ∙ ap stream c.0 in
    ap (with_output (m.payload_type, m.payload)) rest
    ∙ ap (λ x. with_output x (outputs stream (i + 1) (length ms))) content

pub outputs-+ :
    (stream : Numbered) (i n k : ℕ)
    → outputs stream i (n + k) ≡ outputs stream i n ++ outputs stream (i + n) k
outputs-+ stream i zero k =
    let none_first : 0 + k ≡ k = omega arith in
    let same_place : i ≡ i + 0 = omega arith in
    ap (outputs stream i) none_first ∙ ap (λ j. outputs stream j k) same_place
outputs-+ stream i (suc n) k =
    let one_first : suc n + k ≡ suc (n + k) = omega arith in
    let same_place : i + 1 + n ≡ i + suc n = omega arith in
    ap (outputs stream i) one_first
    ∙ ap (with_output (stream (u64 i))) (outputs-+ stream (i + 1) n k)
    ∙ with_output-++ (stream (u64 i)) (outputs stream (i + 1) n) (outputs stream (i + 1 + n) k)
    ∙ ap (λ j. outputs stream i (suc n) ++ outputs stream j k) same_place

pub outputs_prefix :
    (stream : Numbered) (n m : ℕ) → n ≤ m → PrefixOf (outputs stream 0 n) (outputs stream 0 m)
outputs_prefix stream n m le =
    let split : n + (m - n) ≡ m = omega arith in
    (
      outputs stream (0 + n) (m - n),
      sym (outputs-+ stream 0 n (m - n)) ∙ ap (outputs stream 0) split,
    )

pub PrefixOf-trans :
    {A : Type 0} (xs ys zs : List A) → PrefixOf xs ys → PrefixOf ys zs → PrefixOf xs zs
PrefixOf-trans xs ys zs (r, e) (r', e') =
    (r ++ r', sym (append_assoc xs r r') ∙ ap (λ l. l ++ r') e ∙ e')
