-- ===== src/Paging/Pages.antt =====
-- Which pages are collected, and how many requests are sent.
use feature_asset_inventory.Base.{
  ℕ, zero, suc, ◌+◌, ◌≤◌, String, ◌≡◌, refl, sym, ap, ◌∙◌, inl, inr, Option, none, some, List, [],
  ◌∷◌, ◌++◌, length, arith,
}
use feature_asset_inventory.Python.Errors.{Outcome, value, Outcome-cases}
use feature_asset_inventory.Python.Json.{Json, text}
use feature_asset_inventory.Paging.{next_link, fired, loop, paginate}

module _ {T : Type 0} (fetch : Json → Outcome Json) (parse : Json → Outcome (List T)) where
  -- The pages that the links lead through to the last, their items and their number.
  pub data Chain : Option Json → List T → ℕ → Type 0 where
    ended : Chain none [] 0
    page :
        {url payload : Json} {next : Option Json} {found items : List T} {n : ℕ}
        → fetch url ≡ value payload
        → next_link payload ≡ value next
        → parse payload ≡ value found
        → Chain next items n
        → Chain (some url) (found ++ items) (suc n)

  -- The items of the first pages, all of them if the limit allows.
  pub record Collected (max_pages n : ℕ) (items : List T) (result : Outcome (List T)) : Type 0 where
    pub taken : List T
    pub dropped : List T
    pub returned : result ≡ value taken
    pub in_order : items ≡ taken ++ dropped
    pub complete : n ≤ max_pages → dropped ≡ []

  append_assoc : (xs ys zs : List T) → (xs ++ ys) ++ zs ≡ xs ++ (ys ++ zs)
  append_assoc [] ys zs = refl
  append_assoc (x ∷ xs) ys zs = ap (λ l. x ∷ l) (append_assoc xs ys zs)

  loop-Collected :
      (pages : ℕ) {future : Option Json} {items : List T} {n : ℕ}
      → Chain future items n
      → Collected pages n items (loop fetch parse pages future).1
  unfolding loop
  loop-Collected zero {future} {items} {n} ended = record {
    taken = [];
    dropped = [];
    returned = refl;
    in_order = refl;
    complete = λ h. refl;
  }
  loop-Collected zero (page {found = found} {items = items} f l p c) = record {
    taken = [];
    dropped = found ++ items;
    returned = refl;
    in_order = refl;
    complete = λ h. absurd (omega (arith, h));
  }
  loop-Collected (suc pages) ended = record {
    taken = [];
    dropped = [];
    returned = refl;
    in_order = refl;
    complete = λ h. refl;
  }
  loop-Collected (suc pages) (page {found = found} f l p c) =
      let rest = loop-Collected pages c in
      record {
        taken = found ++ rest.taken;
        dropped = rest.dropped;
        returned = rw (f, l, p, loop) (rw rest.returned refl);
        in_order =
            ap (λ l. found ++ l) rest.in_order ∙ sym (append_assoc found rest.taken rest.dropped);
        complete = λ h. rest.complete (omega (arith, h));
      }

  -- If the links lead through `n` pages, each of which can be fetched and parsed, the items of the
  -- first pages are returned, in order, and those of all of them if there are no more than
  -- `max_pages`.
  pub paginate-Collected :
      (first_url : String) (max_pages n : ℕ) (items : List T)
      → Chain (some (text first_url)) items n
      → Collected max_pages n items (paginate fetch parse first_url max_pages).1
  unfolding paginate
  paginate-Collected first_url max_pages n items c = loop-Collected max_pages c

  length-append : (xs ys : List Json) → length (xs ++ ys) ≡ length xs + length ys
  length-append [] ys = omega arith
  length-append (x ∷ xs) ys = omega (arith, length-append xs ys)

  length-fired : (next : Option Json) → length (fired next) ≤ 1
  length-fired none = omega arith
  length-fired (some url) = omega arith

  length-loop :
      (pages : ℕ) (future : Option Json) → length (loop fetch parse pages future).0 ≤ pages
  unfolding loop
  length-loop zero future = omega arith
  length-loop (suc pages) none = omega arith
  length-loop (suc pages) (some url) = elim (Outcome-cases (fetch url)) [
    | inr (e, f) ↦ rw (f, loop) (omega arith)
    | inl (payload, f) ↦ elim (Outcome-cases (next_link payload)) [
      | inr (e, l) ↦ rw (f, l, loop) (omega arith)
      | inl (next, l) ↦ elim (Outcome-cases (parse payload)) [
        | inr (e, p) ↦ rw (f, l, p, loop) (omega (arith, length-fired next))
        | inl (found, p) ↦
            rw (f, l, p, loop)
              (omega (
                arith,
                length-fired next,
                length-loop pages next,
                length-append (fired next) (loop fetch parse pages next).0,
              ))
      ]
    ]
  ]

  -- However the links go on, in a circle even, no more than one request more than `max_pages` is sent.
  pub length-paginate :
      (first_url : String) (max_pages : ℕ)
      → length (paginate fetch parse first_url max_pages).0 ≤ suc max_pages
  unfolding paginate
  length-paginate first_url max_pages = omega (arith, length-loop max_pages (some (text first_url)))
