-- ===== src/ConfigReader/Laws.antt =====
-- trim and parseLine on lines as people write them.
use talon_rpc.Prelude.{
  ℕ, zero, suc, ◌+◌, ◌-◌, ◌<◌, ◌≡◌, ◌≢◌, refl, sym, ap, ◌∙◌, List, [], ◌∷◌, ◌++◌, length, drop,
  replicate, ◌==◌, none, some, arith, append_assoc, append-nil, take-append, drop-append,
  length-append, length-replicate, false,
}
use talon_rpc.Prelude.Text.{find_first_of, find_first_of-append, Without}
use talon_rpc.Prelude.Dict.{Dict, assign}
use talon_rpc.ConfigReader.{
  find_first_not_space, find_last_not_space, later, slice, trim, parse_trimmed, parse_line,
}

abbrev pub spaces : ℕ → List ℕ
spaces n = replicate n b' '

-- Texts that do not begin, or do not end, with a space.
abbrev pub StartsSolid : List ℕ → Type 0
StartsSolid [] = Unit {0}
StartsSolid (c ∷ s) = c ≢ b' '

abbrev pub EndsSolid : List ℕ → Type 0
EndsSolid [] = Unit {0}
EndsSolid (c ∷ []) = c ≢ b' '
EndsSolid (c ∷ d ∷ s) = EndsSolid (d ∷ s)

first_solid :
    (n c : ℕ) (s : List ℕ) → c ≢ b' ' → find_first_not_space (spaces n ++ (c ∷ s)) ≡ some n
unfolding find_first_not_space
first_solid zero c s h = ground arith
first_solid (suc n) c s h = rw (first_solid n c s h)

first_none : (m n : ℕ) → find_first_not_space (spaces m ++ spaces n) ≡ none
unfolding find_first_not_space
first_none zero zero = refl
first_none zero (suc n) = rw (first_none zero n)
first_none (suc m) n = rw (first_none m n)

last_none : (n : ℕ) → find_last_not_space (spaces n) ≡ none
unfolding find_last_not_space later
last_none zero = refl
last_none (suc n) = rw (last_none n)

last_solid :
    (c : ℕ) (s : List ℕ) (n : ℕ)
    → EndsSolid (c ∷ s)
    → find_last_not_space ((c ∷ s) ++ spaces n) ≡ some (length s)
unfolding find_last_not_space later
last_solid c [] n h = rw (last_none n, later) (ground arith)
last_solid c (d ∷ s) n h = rw (last_solid d s n h)

last_behind :
    (n i k : ℕ) (s : List ℕ)
    → find_last_not_space s ≡ some i
    → k ≡ n + i
    → find_last_not_space (spaces n ++ s) ≡ some k
unfolding find_last_not_space later
last_behind zero i k s h e = h ∙ ap some (omega arith)
last_behind (suc n) i zero s h e = absurd (omega arith)
last_behind (suc n) i (suc k) s h e = rw (last_behind n i k s h (omega arith))

-- trim takes the spaces off both ends.
pub trim-spaces :
    (m n : ℕ) (s : List ℕ) → StartsSolid s → EndsSolid s → trim (spaces m ++ (s ++ spaces n)) ≡ s
unfolding trim slice
trim-spaces m n [] h k = rw (first_none m n, trim)
trim-spaces m n (c ∷ s) h k =
    rw
      (
        first_solid m c (s ++ spaces n) h,
        trim,
        last_behind m (length s) (m + length s) ((c ∷ s) ++ spaces n) (last_solid c s n k) refl,
        slice,
      )
      (rw (drop-append m (spaces m) ((c ∷ s) ++ spaces n) (sym (length-replicate m b' ')))
        (take-append (suc (m + length s) - m) (c ∷ s) (spaces n) (omega arith)))

abbrev StartsPlain : List ℕ → Type 0
StartsPlain [] = ⊥
StartsPlain (c ∷ s) = c ≢ b'#'

-- A key as it may stand in a line: not empty, no space at its ends, no `=` in it and no `#` in front.
pub record IsKey (key : List ℕ) : Type 0 where
  pub starts : StartsSolid key
  pub ends : EndsSolid key
  pub no_equals : Without b'=' key
  pub no_comment : StartsPlain key

-- The text of a line between its outer spaces.
abbrev pub entry : List ℕ → List ℕ → ℕ → ℕ → List ℕ
entry key value b c = key ++ (spaces b ++ (b'=' ∷ (spaces c ++ value)))

spaces-Without : (n : ℕ) → Without b'=' (spaces n)
spaces-Without zero = tt
spaces-Without (suc n) = (omega arith, spaces-Without n)

Without-append : (c : ℕ) (s r : List ℕ) → Without c s → Without c r → Without c (s ++ r)
Without-append c [] r h k = k
Without-append c (x ∷ s) r h k = (h.0, Without-append c s r h.1 k)

StartsSolid-append : (s r : List ℕ) → 0 < length s → StartsSolid s → StartsSolid (s ++ r)
StartsSolid-append [] r l h = elim l [ ]
StartsSolid-append (c ∷ s) r l h = h

EndsSolid-append : (s r : List ℕ) → 0 < length r → EndsSolid r → EndsSolid (s ++ r)
EndsSolid-append [] r l h = h
EndsSolid-append (c ∷ []) [] l h = elim l [ ]
EndsSolid-append (c ∷ []) (d ∷ r) l h = h
EndsSolid-append (c ∷ d ∷ s) r l h = EndsSolid-append (d ∷ s) r l h

entry-StartsSolid : (key value : List ℕ) (b c : ℕ) → IsKey key → StartsSolid (entry key value b c)
entry-StartsSolid [] value b c h = elim (h.no_comment) [ ]
entry-StartsSolid (x ∷ key) value b c h = h.starts

entry-EndsSolid :
    (key value : List ℕ) (b c : ℕ)
    → 0 < length value
    → EndsSolid value
    → EndsSolid (entry key value b c)
entry-EndsSolid key value b c l h =
    let tail = b'=' ∷ (spaces c ++ value) in
    let ends : EndsSolid tail = EndsSolid-append (b'=' ∷ spaces c) value l h in
    EndsSolid-append key (spaces b ++ tail) (omega (arith, length-append (spaces b) tail))
      (EndsSolid-append (spaces b) tail (omega arith) ends)

-- The first `=` of an entry is behind the key and its spaces.
entry_key :
    (key value : List ℕ) (b c : ℕ)
    → entry key value b c ≡ (key ++ spaces b) ++ (b'=' ∷ (spaces c ++ value))
entry_key key value b c = sym (append_assoc key (spaces b) (b'=' ∷ (spaces c ++ value)))

drop_past : (s : List ℕ) (c : ℕ) (r : List ℕ) → drop (suc (length s)) (s ++ (c ∷ r)) ≡ r
drop_past [] c r = refl
drop_past (x ∷ s) c r = drop_past s c r

StartsPlain-append : (s r t : List ℕ) → StartsPlain s → StartsPlain ((s ++ r) ++ t)
StartsPlain-append [] r t h = elim h [ ]
StartsPlain-append (c ∷ s) r t h = h

cut_entry :
    (left right : List ℕ) (m : Dict (List ℕ))
    → StartsPlain (left ++ (b'=' ∷ right))
    → Without b'=' left
    → parse_trimmed (left ++ (b'=' ∷ right)) m ≡ assign (trim left) (trim right) m
unfolding parse_trimmed
cut_entry [] right m p w = unfold assign find_first_of in refl
cut_entry (x ∷ left) right m p w =
    let plain : (x == b'#') ≡ false = ground (arith, p) in
    let equals = find_first_of-append b'=' (x ∷ left) right w in
    rw (plain, equals)
      (rw (take-append (length left) left (b'=' ∷ right) refl, drop_past left b'=' right))

-- A line `key = value`, with any number of spaces in front, around the `=` and at the end, assigns the
-- value to the key, provided that the key has no `=`, does not begin with `#` and neither the key nor the
-- value (which is not empty) has spaces at its ends.
pub parse_line-entry :
    (a b c d : ℕ) (key value : List ℕ) (m : Dict (List ℕ))
    → IsKey key
    → 0 < length value
    → StartsSolid value
    → EndsSolid value
    → parse_line (spaces a ++ (entry key value b c ++ spaces d)) m ≡ assign key value m
unfolding parse_line
parse_line-entry a b c d key value m h l s e =
    let left = key ++ spaces b in
    let right = spaces c ++ value in
    let free : Without b'=' left =
      Without-append b'=' key (spaces b) (h.no_equals) (spaces-Without b) in
    let plain : StartsPlain (left ++ (b'=' ∷ right)) = StartsPlain-append key _ _ (h.no_comment) in
    let key_trim = trim-spaces 0 b key (h.starts) (h.ends) in
    let value_trim : trim right ≡ value =
      ap (λ t. trim (spaces c ++ t)) (sym (append-nil value)) ∙ trim-spaces c 0 value s e in
    let left_trim : trim left ≡ key = key_trim in
    rw (
      trim-spaces a d (entry key value b c) (entry-StartsSolid key value b c h)
          (entry-EndsSolid key value b c l e),
      entry_key key value b c,
      cut_entry left right m plain free,
      left_trim,
      value_trim,
    )
