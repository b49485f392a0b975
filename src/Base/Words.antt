-- ===== src/Base/Words.antt =====
-- Texts taken apart: splitting, lower case, membership in lists of texts, sorted sets of texts.
use Prim.Native.Nat.{ℕ, zero, suc, Ordering}
use Prim.Native.Char.{Char, code}
use Prim.Native.String.{String, [], ◌∷◌, ◌++◌, compare}
use mathlib.Core.Path.{◌≡◌, refl, ap, ◌∙◌}
use text.Mathlib.TextLemmas.{nil-append, cons-append}
use mathlib.Core.Bool.{Bool, true, false, ◌||◌, ◌&&◌}
use mathlib.Core.List
use mathlib.Core.List.{List}
use native.Mathlib.Omega.{arith}
use text.Mathlib.Text.{◌==◌ as str_eq}
use text.Mathlib.TextEquality.{eq_iff}
use feature_asset_inventory.Base.Tests.{◌==◌, if◌then◌else◌}
use feature_asset_inventory.Base.Text.{strip, is_blank}

-- `c + s[0], s[1], …`
abbrev onto_first : Char → List String → List String
onto_first c List.[] = List.◌∷◌ (c ∷ []) List.[]
onto_first c (List.◌∷◌ w ws) = List.◌∷◌ (c ∷ w) ws

-- `s.split(d)` for one character
unfoldable pub split_at : ℕ → String → List String
split_at d [] = List.◌∷◌ "" List.[]
split_at d (c ∷ s) =
    let rest = split_at d s in if code c == d then List.◌∷◌ "" rest else onto_first c rest

-- `[v.strip() for v in … if v.strip()]`
unfoldable pub stripped : List String → List String
stripped List.[] = List.[]
stripped (List.◌∷◌ w ws) =
    let rest = stripped ws in if is_blank (strip w) then rest else List.◌∷◌ (strip w) rest

-- `[v.strip() for v in s.split(d) if v.strip()]`
abbrev pub words : ℕ → String → List String
words d s = stripped (split_at d s)

-- `d in s` for one character
unfoldable pub has_char : ℕ → String → Bool
has_char d [] = false
has_char d (c ∷ s) = code c == d || has_char d s

-- `s[n:]`
abbrev pub drop_chars : ℕ → String → String
drop_chars zero s = s
drop_chars (suc n) [] = []
drop_chars (suc n) (c ∷ s) = drop_chars n s

-- `s.startswith(prefix)`
abbrev pub has_prefix : String → String → Bool
has_prefix [] s = true
has_prefix (c ∷ p) [] = false
has_prefix (c ∷ p) (d ∷ s) = code c == code d && has_prefix p s

abbrev alphabet : List (ℕ × String)
alphabet =
    List.◌∷◌ (b'A', "a")
      (List.◌∷◌ (b'B', "b")
        (List.◌∷◌ (b'C', "c")
          (List.◌∷◌ (b'D', "d")
            (List.◌∷◌ (b'E', "e")
              (List.◌∷◌ (b'F', "f")
                (List.◌∷◌ (b'G', "g")
                  (List.◌∷◌ (b'H', "h")
                    (List.◌∷◌ (b'I', "i")
                      (List.◌∷◌ (b'J', "j")
                        (List.◌∷◌ (b'K', "k")
                          (List.◌∷◌ (b'L', "l")
                            (List.◌∷◌ (b'M', "m")
                              (List.◌∷◌ (b'N', "n")
                                (List.◌∷◌ (b'O', "o")
                                  (List.◌∷◌ (b'P', "p")
                                    (List.◌∷◌ (b'Q', "q")
                                      (List.◌∷◌ (b'R', "r")
                                        (List.◌∷◌ (b'S', "s")
                                          (List.◌∷◌ (b'T', "t")
                                            (List.◌∷◌ (b'U', "u")
                                              (List.◌∷◌ (b'V', "v")
                                                (List.◌∷◌ (b'W', "w")
                                                  (List.◌∷◌ (b'X', "x")
                                                    (List.◌∷◌ (b'Y', "y")
                                                      (List.◌∷◌ (b'Z', "z")
                                                        List.[])))))))))))))))))))))))))

changed_by : List (ℕ × String) → Char → String
changed_by List.[] c = c ∷ []
changed_by (List.◌∷◌ (n, s) rest) c =
    let other = changed_by rest c in if code c == n then s else other

-- `p + s`, which computes at a text `p` that is written out
unfoldable pub prepend : String → String → String
prepend [] s = s
prepend (c ∷ p) s = c ∷ prepend p s

pub append-eq-prepend : (p s : String) → p ++ s ≡ prepend p s
unfolding prepend
append-eq-prepend [] s = nil-append s
append-eq-prepend (c ∷ p) s = cons-append c p s ∙ ap (λ t. c ∷ t) (append-eq-prepend p s)

-- `s.lower()` of ASCII letters
unfoldable pub lower : String → String
unfolding changed_by prepend
lower [] = []
lower (c ∷ s) = prepend (changed_by alphabet c) (lower s)

abbrev capitals : List (ℕ × String)
capitals =
    List.◌∷◌ (b'a', "A")
      (List.◌∷◌ (b'b', "B")
        (List.◌∷◌ (b'c', "C")
          (List.◌∷◌ (b'd', "D")
            (List.◌∷◌ (b'e', "E")
              (List.◌∷◌ (b'f', "F")
                (List.◌∷◌ (b'g', "G")
                  (List.◌∷◌ (b'h', "H")
                    (List.◌∷◌ (b'i', "I")
                      (List.◌∷◌ (b'j', "J")
                        (List.◌∷◌ (b'k', "K")
                          (List.◌∷◌ (b'l', "L")
                            (List.◌∷◌ (b'm', "M")
                              (List.◌∷◌ (b'n', "N")
                                (List.◌∷◌ (b'o', "O")
                                  (List.◌∷◌ (b'p', "P")
                                    (List.◌∷◌ (b'q', "Q")
                                      (List.◌∷◌ (b'r', "R")
                                        (List.◌∷◌ (b's', "S")
                                          (List.◌∷◌ (b't', "T")
                                            (List.◌∷◌ (b'u', "U")
                                              (List.◌∷◌ (b'v', "V")
                                                (List.◌∷◌ (b'w', "W")
                                                  (List.◌∷◌ (b'x', "X")
                                                    (List.◌∷◌ (b'y', "Y")
                                                      (List.◌∷◌ (b'z', "Z")
                                                        List.[])))))))))))))))))))))))))

-- `s.upper()` of ASCII letters
unfoldable pub upper : String → String
unfolding changed_by prepend
upper [] = []
upper (c ∷ s) = prepend (changed_by capitals c) (upper s)

-- `w in ws`
unfoldable pub member : String → List String → Bool
member w List.[] = false
member w (List.◌∷◌ v vs) = str_eq w v || member w vs

abbrev is_before : String → String → Bool
is_before a b = elim (compare a b) [ Ordering.lt ↦ true | _ ↦ false ]

insert_text : String → List String → List String
insert_text w List.[] = List.◌∷◌ w List.[]
insert_text w (List.◌∷◌ v vs) =
    let rest = insert_text w vs in
    if str_eq w v
    then List.◌∷◌ v vs
    else if is_before w v
    then List.◌∷◌ w (List.◌∷◌ v vs)
    else List.◌∷◌ v rest

-- `sorted(set(ws))`
unfoldable pub sorted_set : List String → List String
unfolding insert_text
sorted_set List.[] = List.[]
sorted_set (List.◌∷◌ w ws) = insert_text w (sorted_set ws)

member-insert_text :
    (k w : String) (vs : List String) → member k (insert_text w vs) ≡ (str_eq k w || member k vs)
unfolding member insert_text
member-insert_text k w List.[] = refl
member-insert_text k w (List.◌∷◌ v vs) =
    ground (arith, eq_iff w v, eq_iff k v, eq_iff k w, member-insert_text k w vs)

-- Sorting and the removal of repeats keep the members.
pub member-sorted_set : (k : String) (ws : List String) → member k (sorted_set ws) ≡ member k ws
unfolding member sorted_set
member-sorted_set k List.[] = refl
member-sorted_set k (List.◌∷◌ w ws) =
    ground (arith, member-insert_text k w (sorted_set ws), member-sorted_set k ws)

pub member-append :
    (k : String) (vs ws : List String) → member k (List.◌++◌ vs ws) ≡ (member k vs || member k ws)
unfolding member
member-append k List.[] ws = refl
member-append k (List.◌∷◌ v vs) ws = ground (arith, member-append k vs ws)

lower_example : lower "Bearer X" ≡ "bearer x"
unfolding lower
lower_example = refl

upper_example : upper "q2-ab" ≡ "Q2-AB"
unfolding upper
upper_example = refl

words_example : words b',' " a, ,b" ≡ List.◌∷◌ "a" (List.◌∷◌ "b" List.[])
unfolding split_at stripped strip
words_example = refl
