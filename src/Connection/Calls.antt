-- ===== src/Connection/Calls.antt =====
-- Which of the callbacks in m_read_dones of tcp_connection.cc get which responses.
use talon_rpc.Prelude.{
  ℕ, ◌≡◌, refl, sym, ap, ◌∙◌, List, [], ◌∷◌, Option, none, some, Option-cases, Bool-cases, inl, inr,
  if◌then◌else◌,
}
use talon_rpc.Prelude.Text.{str_eq, str_eq_iff}
use talon_rpc.Prelude.Dict.{Dict, lookup, erase, lookup-erase}
use talon_rpc.Coder.Protocol.{TinyPbProtocol}

module _ {D : Type 0} where
  -- The calls that the responses lead to, and the callbacks that wait afterwards.
  abbrev pub log_of : List TinyPbProtocol → Dict D → List (D × TinyPbProtocol)
  log_of [] dones = []
  log_of (r ∷ responses) dones = elim (lookup r.msg_id dones) [
    | none ↦ log_of responses dones
    | some done ↦ (done, r) ∷ log_of responses (erase r.msg_id dones)
  ]

  abbrev pub left_of : List TinyPbProtocol → Dict D → Dict D
  left_of [] dones = dones
  left_of (r ∷ responses) dones = elim (lookup r.msg_id dones) [
    | none ↦ left_of responses dones
    | some done ↦ left_of responses (erase r.msg_id dones)
  ]

  -- The calls for one id.
  abbrev pub of_id : List ℕ → List (D × TinyPbProtocol) → List (D × TinyPbProtocol)
  of_id k [] = []
  of_id k ((done, r) ∷ log) =
      let rest = of_id k log in if str_eq r.msg_id k then (done, r) ∷ rest else rest

  -- The callback, if there is one, with the response, if there is one.
  abbrev pub once : Option D → Option TinyPbProtocol → List (D × TinyPbProtocol)
  once none r = []
  once (some done) none = []
  once (some done) (some r) = (done, r) ∷ []

  abbrev pub unanswered : Option TinyPbProtocol → Option D → Option D
  unanswered none waiting = waiting
  unanswered (some r) waiting = none

-- The first response with an id.
abbrev pub first_with : List ℕ → List TinyPbProtocol → Option TinyPbProtocol
first_with k [] = none
first_with k (r ∷ responses) = if str_eq r.msg_id k then some r else first_with k responses

pub once-none : {D : Type 0} (o : Option D) → once o none ≡ []
once-none none = refl
once-none (some d) = refl

unanswered-none : {D : Type 0} (o : Option TinyPbProtocol) → unanswered {D = D} o none ≡ none
unanswered-none none = refl
unanswered-none (some r) = refl

module _ {D : Type 0} where
  pub of_id-log_of :
      (k : List ℕ) (responses : List TinyPbProtocol) (dones : Dict D)
      → of_id k (log_of responses dones) ≡ once (lookup k dones) (first_with k responses)
  of_id-log_of k [] dones = sym (once-none (lookup k dones))
  of_id-log_of k (r ∷ responses) dones = elim (Option-cases (lookup r.msg_id dones)) [
    | inl e ↦ elim (Bool-cases (str_eq r.msg_id k)) [
      | inl same ↦
          let gone : lookup k dones ≡ none =
            ap (λ t. lookup t dones) (sym ((str_eq_iff r.msg_id k).0 same)) ∙ e in
          rw (e, same, log_of) (of_id-log_of k responses dones ∙ rw gone)
      | inr other ↦ rw (e, other, log_of) (of_id-log_of k responses dones)
    ]
    | inr (d, e) ↦ elim (Bool-cases (str_eq r.msg_id k)) [
      | inl same ↦
          let there : lookup k dones ≡ some d =
            ap (λ t. lookup t dones) (sym ((str_eq_iff r.msg_id k).0 same)) ∙ e in
          let gone : lookup k (erase r.msg_id dones) ≡ none =
            lookup-erase r.msg_id k dones ∙ rw same in
          let rest = of_id-log_of k responses (erase r.msg_id dones) ∙ rw gone in
          rw (e, same, there, log_of) (ap (◌∷◌ (d, r)) rest)
      | inr other ↦
          let kept : lookup k (erase r.msg_id dones) ≡ lookup k dones =
            lookup-erase r.msg_id k dones ∙ rw other in
          rw (e, other, log_of)
            (of_id-log_of k responses (erase r.msg_id dones)
              ∙ ap (λ t. once t (first_with k responses)) kept)
    ]
  ]

  pub lookup-left_of :
      (k : List ℕ) (responses : List TinyPbProtocol) (dones : Dict D)
      → lookup k (left_of responses dones) ≡ unanswered (first_with k responses) (lookup k dones)
  lookup-left_of k [] dones = refl
  lookup-left_of k (r ∷ responses) dones = elim (Option-cases (lookup r.msg_id dones)) [
    | inl e ↦ elim (Bool-cases (str_eq r.msg_id k)) [
      | inl same ↦
          let gone : lookup k dones ≡ none =
            ap (λ t. lookup t dones) (sym ((str_eq_iff r.msg_id k).0 same)) ∙ e in
          rw (e, same, left_of) (lookup-left_of k responses dones ∙ rw gone (unanswered-none _))
      | inr other ↦ rw (e, other, left_of) (lookup-left_of k responses dones)
    ]
    | inr (d, e) ↦ elim (Bool-cases (str_eq r.msg_id k)) [
      | inl same ↦
          let gone : lookup k (erase r.msg_id dones) ≡ none =
            lookup-erase r.msg_id k dones ∙ rw same in
          rw (e, same, left_of)
            (lookup-left_of k responses (erase r.msg_id dones) ∙ rw gone (unanswered-none _))
      | inr other ↦
          let kept : lookup k (erase r.msg_id dones) ≡ lookup k dones =
            lookup-erase r.msg_id k dones ∙ rw other in
          rw (e, other, left_of)
            (lookup-left_of k responses (erase r.msg_id dones)
              ∙ ap (unanswered (first_with k responses)) kept)
    ]
  ]
