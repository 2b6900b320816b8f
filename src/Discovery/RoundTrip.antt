-- ===== src/Discovery/RoundTrip.antt =====
-- The service centre driven by its client, against a map that is a function.
use mathlib.Core.Path.{fun_ext}
use talon_rpc.Prelude.{
  ℕ, suc, ◌<◌, ◌≡◌, refl, sym, ap, ◌∙◌, List, [], ◌∷◌, ◌++◌, length, drop, if◌then◌else◌, Option,
  none, some, All, arith, take-append, drop-append, lt→ltb, drop-drop, Option-cases, inl, inr,
  Bool-cases,
}
use talon_rpc.Prelude.Int.{ℤ}
use talon_rpc.Prelude.Text.{
  codes, str_eq, str_eq_iff, find_first_of, find_first_of-append, c_prefix-NoNul, Without,
}
use talon_rpc.Prelude.Dict.{lookup, lookup-assign, lookup-erase}
use talon_rpc.Prelude.Outcome.{Outcome, ok, ◌>>=◌}
use talon_rpc.Discovery.Center.{
  ServiceMap, bytes, first_word, other_words, control, add_service, delete_service, modify_service,
  modify_entry, on_control, query,
}
use talon_rpc.Discovery.Client.{
  address, add_command, modify_command, delete_command, look_up_command,
}

-- What a client of Runtime_Command asks for.
pub data Request : Type 0 where
  add modify : List ℕ → List ℕ → ℤ → Request
  delete : List ℕ → Request
  look_up : Request

abbrev pub command : Request → List ℕ
command (add name ip port) = add_command name ip port
command (modify name ip port) = modify_command name ip port
command (delete name) = delete_command name
command look_up = look_up_command

-- A name with no space in it.
abbrev pub IsPlain : Request → Type 0
IsPlain (add name ip port) = Without b' ' name
IsPlain (modify name ip port) = Without b' ' name
IsPlain (delete name) = Unit {0}
IsPlain look_up = Unit {0}

-- What the centre promises: a map from names to addresses.
abbrev pub Addresses : Type 0
Addresses = List ℕ → Option (List ℕ)

abbrev replaced : Option (List ℕ) → List ℕ → Option (List ℕ)
replaced none addr = none
replaced (some old) addr = some addr

abbrev pub promise : Request → Addresses → Addresses
promise (add name ip port) m j = if str_eq name j then some (address ip port) else m j
promise (modify name ip port) m j = if str_eq name j then replaced (m j) (address ip port) else m j
promise (delete name) m j = if str_eq name j then none else m j
promise look_up m j = m j

first_word-append : (s r : List ℕ) → Without b' ' s → first_word (s ++ (b' ' ∷ r)) ≡ s
unfolding first_word
first_word-append s r h =
    rw (find_first_of-append b' ' s r h, first_word) (take-append (length s) s _ refl)

other_words-append : (s r : List ℕ) → Without b' ' s → other_words (s ++ (b' ' ∷ r)) ≡ r
unfolding other_words
other_words-append s r h =
    rw (find_first_of-append b' ' s r h, other_words)
      (sym (drop-drop 1 (length s) (suc (length s)) (s ++ (b' ' ∷ r)) (omega arith))
        ∙ ap (drop 1) (drop-append (length s) s (b' ' ∷ r) refl))

add_service-promise :
    (m : ServiceMap) (name addr j : List ℕ)
    → Without b' ' name
    → lookup j (add_service m (name ++ (b' ' ∷ addr))).1
      ≡ (if str_eq name j then some addr else lookup j m)
unfolding add_service
add_service-promise m name addr j h =
    rw (first_word-append name addr h, other_words-append name addr h) (lookup-assign name j addr m)

-- A name that is not in the map.
missing :
    (m : ServiceMap) (name j : List ℕ) (a : Option (List ℕ))
    → lookup name m ≡ none
    → (name ≡ j → a ≡ none)
    → lookup j m ≡ (if str_eq name j then a else lookup j m)
missing m name j a h e = elim (Bool-cases (str_eq name j)) [
  | inl same ↦
      let same' = (str_eq_iff name j).0 same in
      rw same (ap (λ k. lookup k m) (sym same') ∙ h ∙ sym (e same'))
  | inr other ↦ rw other
]

modify_entry-promise :
    (m : ServiceMap) (name addr j : List ℕ)
    → lookup j (modify_entry m name addr).1
      ≡ (if str_eq name j then replaced (lookup j m) addr else lookup j m)
unfolding modify_entry
modify_entry-promise m name addr j = elim (Option-cases (lookup name m)) [
  | inl e ↦
      rw (e, modify_entry)
        (missing m name j (replaced (lookup j m) addr) e
          (λ same. ap (λ k. replaced (lookup k m) addr) (sym same) ∙ rw e))
  | inr (old, e) ↦
      rw (e, modify_entry)
        (lookup-assign name j addr m ∙ elim (Bool-cases (str_eq name j)) [
          | inl same ↦ rw (same, ← (str_eq_iff name j).0 same, e)
          | inr other ↦ rw other
        ])
]

modify_service-promise :
    (m : ServiceMap) (name addr j : List ℕ)
    → Without b' ' name
    → lookup j (modify_service m (name ++ (b' ' ∷ addr))).1
      ≡ (if str_eq name j then replaced (lookup j m) addr else lookup j m)
unfolding modify_service
modify_service-promise m name addr j h =
    rw (first_word-append name addr h, other_words-append name addr h)
      (modify_entry-promise m name addr j)

delete_service-promise :
    (m : ServiceMap) (name j : List ℕ)
    → lookup j (delete_service m name).1 ≡ (if str_eq name j then none else lookup j m)
unfolding delete_service
delete_service-promise m name j = elim (Option-cases (lookup name m)) [
  | inl e ↦ rw (e, delete_service) (missing m name j none e (λ same. refl))
  | inr (old, e) ↦ rw (e, delete_service) (lookup-erase name j m)
]

pub control-promise :
    (q : Request) (m : ServiceMap) (j : List ℕ)
    → IsPlain q
    → lookup j (control m (command q)).1 ≡ promise q (λ k. lookup k m) j
unfolding control str_eq
control-promise (add name ip port) m j h =
    let content = name ++ (b' ' ∷ address ip port) in
    rw
      (
        first_word-append (codes "add") content (omega arith),
        other_words-append (codes "add") content (omega arith),
      )
      (unfold str_eq in add_service-promise m name (address ip port) j h)
control-promise (modify name ip port) m j h =
    let content = name ++ (b' ' ∷ address ip port) in
    rw
      (
        first_word-append (codes "modify") content (omega arith),
        other_words-append (codes "modify") content (omega arith),
      )
      (modify_service-promise m name (address ip port) j h)
control-promise (delete name) m j h =
    rw
      (
        first_word-append (codes "delete") name (omega arith),
        other_words-append (codes "delete") name (omega arith),
      )
      (delete_service-promise m name j)
control-promise look_up m j h = unfold first_word find_first_of in refl

-- A request that one recv takes whole and that no C string cuts, with no space in its name.
pub record IsSound (q : Request) : Type 0 where
  pub plain : IsPlain q
  pub no_nul : All (λ c. 0 < c) (command q)
  pub short : length (command q) < 1024

-- The requests of clients, one control connection each.
unfoldable pub serve : ServiceMap → List Request → Outcome ServiceMap
serve service_map [] = ok service_map
serve service_map (q ∷ qs) = do
  (back_message, service_map') ← on_control service_map (bytes (command q))
  serve service_map' qs

abbrev pub promises : List Request → Addresses → Addresses
promises [] m = m
promises (q ∷ qs) m = promises qs (promise q m)

-- What a query is answered with.
abbrev pub answer : Option (List ℕ) → List ℕ
answer none = codes "unknown host"
answer (some addr) = addr

on_control_lem :
    (m : ServiceMap) (c : ℕ) (s : List ℕ)
    → All (λ c. 0 < c) (c ∷ s)
    → length (c ∷ s) < 1024
    → on_control m (bytes (c ∷ s)) ≡ ok (some (control m (c ∷ s)).0, (control m (c ∷ s)).1)
unfolding on_control
on_control_lem m c s h short = rw (lt→ltb _ _ short, c_prefix-NoNul (c ∷ s) h)

pub on_control-command :
    (m : ServiceMap) (q : Request)
    → IsSound q
    → on_control m (bytes (command q))
      ≡ ok (some (control m (command q)).0, (control m (command q)).1)
on_control-command m (add name ip port) h = on_control_lem m _ _ h.no_nul h.short
on_control-command m (modify name ip port) h = on_control_lem m _ _ h.no_nul h.short
on_control-command m (delete name) h = on_control_lem m _ _ h.no_nul h.short
on_control-command m look_up h = on_control_lem m _ _ h.no_nul h.short

-- After any requests of clients the centre answers a query of any name with the address that the
-- requests, read as updates of a map in their order, leave it with, and with `unknown host` where
-- they leave none: an added service is found, a deleted one is not, and a modification changes only
-- the address of a name that is there.
pub query-serve :
    (qs : List Request) (m : ServiceMap) (j : List ℕ)
    → All IsSound qs
    → (m' : ServiceMap) × (serve m qs ≡ ok m')
      × (query m' j ≡ answer (promises qs (λ k. lookup k m) j))
unfolding serve query
query-serve [] m j h = (
  m,
  refl,
  elim (Option-cases (lookup j m)) [ inl e ↦ rw (e, query) | inr (a, e) ↦ rw (e, query) ],
)
query-serve (q ∷ qs) m j h =
    let m1 = (control m (command q)).1 in
    let same : (λ (k : List ℕ). lookup k m1) ≡ promise q (λ k. lookup k m) =
      fun_ext λ k. control-promise q m k h.0.plain in
    let (m', run, result) = query-serve qs m1 j h.1 in
    (m', rw (on_control-command m q h.0) run, result ∙ ap (λ f. answer (promises qs f j)) same)
