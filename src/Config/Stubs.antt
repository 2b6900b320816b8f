-- ===== src/Config/Stubs.antt =====
-- The stubs of a configuration, and FindAddr of net/rpc/rpc_channel.cc on them.
use talon_rpc.Prelude.{
  ℕ, ◌≡◌, refl, sym, ap, ◌∙◌, List, [], ◌∷◌, Option, none, some, Option-cases, false, Bool-cases,
  inl, inr, if◌then◌else◌,
}
use talon_rpc.Prelude.Text.{str_eq, str_eq_iff}
use talon_rpc.Prelude.Dict.{Dict, lookup, insert, lookup-assign}
use talon_rpc.Prelude.Outcome.{ok}
use talon_rpc.NetAddr.{check_valid_text, find_addr}
use mathlib.Core.Option
use talon_rpc.Config.{loaded, RpcStub, read_stub, insert_stubs, stub_addrs}

-- The first stub of a name.
abbrev pub first_named : List ℕ → List RpcStub → Option RpcStub
first_named k [] = none
first_named k (s ∷ stubs) = if str_eq s.name k then some s else first_named k stubs

abbrev or_else : {A : Type 0} → Option A → Option A → Option A
or_else none o = o
or_else (some a) o = some a

or_else-none : {A : Type 0} (o : Option A) → or_else o none ≡ o
or_else-none none = refl
or_else-none (some a) = refl

or_else_assoc : {A : Type 0} (o p q : Option A) → or_else (or_else o p) q ≡ or_else o (or_else p q)
or_else_assoc none p q = refl
or_else_assoc (some a) p q = refl

-- insert keeps the value that a key has.
lookup-insert :
    {V : Type 0} (k j : List ℕ) (v : V) (m : Dict V)
    → lookup j (insert k v m) ≡ or_else (lookup j m) (if str_eq k j then some v else none)
unfolding insert
lookup-insert k j v m = elim (Option-cases (lookup k m)) [
  | inl e ↦ elim (Bool-cases (str_eq k j)) [
    | inl same ↦
        let gone : lookup j m ≡ none = ap (λ t. lookup t m) (sym ((str_eq_iff k j).0 same)) ∙ e in
        rw (e, insert, same, gone) (rw (lookup-assign k j v m, same))
    | inr other ↦
        rw (e, insert, other) (rw (lookup-assign k j v m, other) (sym (or_else-none (lookup j m))))
  ]
  | inr (w, e) ↦ elim (Bool-cases (str_eq k j)) [
    | inl same ↦
        let there : lookup j m ≡ some w =
          ap (λ t. lookup t m) (sym ((str_eq_iff k j).0 same)) ∙ e in
        rw (e, insert, there, or_else)
    | inr other ↦ rw (e, insert, other) (sym (or_else-none (lookup j m)))
  ]
]

first_of :
    (s : RpcStub) (k : List ℕ) (stubs : List RpcStub)
    → or_else (if str_eq s.name k then some s else none) (first_named k stubs)
      ≡ first_named k (s ∷ stubs)
first_of s k stubs = elim (Bool-cases (str_eq s.name k)) [ inl e ↦ rw e | inr e ↦ rw e ]

lookup-stub_addrs :
    (k : List ℕ) (stubs : Dict RpcStub)
    → lookup k (stub_addrs stubs) ≡ Option.map (λ (s : RpcStub). s.addr) (lookup k stubs)
unfolding lookup
lookup-stub_addrs k [] = refl
lookup-stub_addrs k ((j, s) ∷ stubs) = elim (Bool-cases (str_eq j k)) [
  | inl e ↦ rw e refl
  | inr e ↦ rw e (lookup-stub_addrs k stubs)
]

module _ {Element : Type 0} (children : List ℕ → Element → List Element)
    (get_text : Element → Option (List ℕ)) where
  -- The elements are read as these stubs.
  abbrev pub AllRead : List Element → List RpcStub → Type 0
  AllRead [] [] = Unit {0}
  AllRead [] (s ∷ stubs) = ⊥
  AllRead (node ∷ nodes) [] = ⊥
  AllRead (node ∷ nodes) (s ∷ stubs) =
      (read_stub children get_text node ≡ loaded s) × AllRead nodes stubs

  pub insert_stubs_lem :
      (nodes : List Element) (stubs : List RpcStub) (old : Dict RpcStub)
      → AllRead nodes stubs
      → (new : Dict RpcStub) × (insert_stubs children get_text nodes old ≡ loaded new)
        × ((k : List ℕ) → lookup k new ≡ or_else (lookup k old) (first_named k stubs))
  unfolding insert_stubs
  insert_stubs_lem [] [] old h = (old, refl, λ k. sym (or_else-none (lookup k old)))
  insert_stubs_lem [] (s ∷ stubs) old h = absurd h
  insert_stubs_lem (node ∷ nodes) [] old h = absurd h
  insert_stubs_lem (node ∷ nodes) (s ∷ stubs) old h =
      let (new, e, found) = insert_stubs_lem nodes stubs (insert s.name s old) h.1 in
      (
        new,
        rw (h.0) e,
        λ k.
            found k
            ∙ ap (λ t. or_else t (first_named k stubs)) (lookup-insert s.name k s old)
            ∙ or_else_assoc (lookup k old) _ (first_named k stubs)
            ∙ ap (or_else (lookup k old)) (first_of s k stubs),
      )

-- Where the text of a service's address is no `ip:port`, FindAddr of a client with a configuration
-- whose rpc_servers are all complete gives the address of the first rpc_server with that name, and a
-- null pointer if there is none.
pub find_addr-stubs :
    {Element : Type 0} (children : List ℕ → Element → List Element)
    (get_text : Element → Option (List ℕ)) (nodes : List Element) (stubs : List RpcStub)
    (str : List ℕ)
    → AllRead children get_text nodes stubs
    → check_valid_text str ≡ ok false
    → (new : Dict RpcStub) × (insert_stubs children get_text nodes [] ≡ loaded new)
      × (find_addr (stub_addrs new) str
          ≡ ok (Option.map (λ (s : RpcStub). s.addr) (first_named str stubs)))
unfolding find_addr lookup
find_addr-stubs children get_text nodes stubs str h invalid =
    let (new, e, found) = insert_stubs_lem children get_text nodes stubs [] h in
    let addr = lookup-stub_addrs str new ∙ ap (Option.map (λ (s : RpcStub). s.addr)) (found str) in
    (new, e, rw invalid (ap ok (addr)))
