-- ===== src/Ftcp/Items/Lines.antt =====
-- The passes of internal/filexfer/ftcp/items.go over a body of lines that each end in a line feed.
use tx.Base.{
  ℕ, zero, suc, ◌+◌, ◌≤◌, ◌≡◌, refl, ap, ◌∙◌, false, List, [], ◌∷◌, ◌++◌, Result, ok, ◌>>=◌, length,
  arith, le→leb, length-append,
}
use tx.Base.Bytes.{Bytes, is_empty, Avoids}
use tx.Ftcp.Verb.{Failure}
use tx.Ftcp.Params.{Params}
use tx.Ftcp.Items.{
  newline, carriage, trim_reversed, trim_line_terminator, next_line, max_item_line_bytes,
  parse_item_line, visit_items, count_lines, parse_request_item_records,
}
use mathlib.Core.List.{reverse, reverse-append, reverse-reverse}

-- A line that the body can carry, without its line feed.
pub record IsLine (l : Bytes) : Type 0 where
  pub filled : 8 ≤ length l
  pub short : length l + 1 ≤ max_item_line_bytes
  pub one_line : Avoids newline l
  pub no_return : Avoids carriage l

next_line-append :
    (l rest : Bytes)
    → Avoids newline l
    → next_line (l ++ (newline ∷ rest)) ≡ (l ++ (newline ∷ []), rest)
unfolding next_line
next_line-append [] rest h = refl
next_line-append (c ∷ l) rest (n, h) = ground (arith, next_line-append l rest h)

trim_reversed-clean : (s : Bytes) → Avoids carriage s → trim_reversed (newline ∷ s) ≡ s
trim_reversed-clean [] h = refl
trim_reversed-clean (c ∷ s) (n, h) = ground arith

Avoids-append : (c : ℕ) (s t : Bytes) → Avoids c s → Avoids c t → Avoids c (s ++ t)
Avoids-append c [] t h k = k
Avoids-append c (x ∷ s) t (n, h) k = (n, Avoids-append c s t h k)

Avoids-reverse : (c : ℕ) (s : Bytes) → Avoids c s → Avoids c (reverse s)
Avoids-reverse c [] h = tt
Avoids-reverse c (x ∷ s) (n, h) =
    rw (reverse-append (x ∷ []) s)
      (Avoids-append c (reverse s) (x ∷ []) (Avoids-reverse c s h) (n, tt))

pub trim_line_terminator-append :
    (l : Bytes) → Avoids carriage l → trim_line_terminator (l ++ (newline ∷ [])) ≡ l
unfolding trim_line_terminator
trim_line_terminator-append l h =
    rw (reverse-append l (newline ∷ [])) (
      ap reverse (trim_reversed-clean (reverse l) (Avoids-reverse carriage l h))
      ∙ reverse-reverse l)

not_empty : (l : Bytes) → 8 ≤ length l → is_empty l ≡ false
not_empty [] h = absurd (omega arith)
not_empty (c ∷ l) h = refl

count_lines-line :
    (l rest : Bytes) (fuel : ℕ)
    → IsLine l
    → count_lines (suc fuel) (l ++ (newline ∷ rest)) ≡ (count_lines fuel rest >>= λ n. ok (suc n))
unfolding count_lines
count_lines-line [] rest fuel h = absurd (omega arith)
count_lines-line (c ∷ l) rest fuel h = rw (
  next_line-append (c ∷ l) rest h.one_line,
  le→leb (length ((c ∷ l) ++ (newline ∷ []))) max_item_line_bytes
      (omega (arith, h.short, length-append (c ∷ l) (newline ∷ []))),
  trim_line_terminator-append (c ∷ l) h.no_return,
  le→leb 8 (length (c ∷ l)) h.filled,
)

abbrev pub body_of {ℓ} : {T : Type ℓ} → List (Bytes × T) → Bytes
body_of [] = []
body_of ((l, t) ∷ ls) = l ++ (newline ∷ body_of ls)

abbrev pub made_of {ℓ} : {T : Type ℓ} → List (Bytes × T) → List T
made_of [] = []
made_of ((l, t) ∷ ls) = t ∷ made_of ls

module _ {ℓ} {T : Type ℓ} (allowed : List Bytes) (parse : Params → Result Failure T) where
  visit_items-line :
      (l rest : Bytes) (item : Params) (t : T) (fuel : ℕ)
      → IsLine l
      → parse_item_line allowed l ≡ ok item
      → parse item ≡ ok t
      → visit_items allowed parse (suc fuel) (l ++ (newline ∷ rest))
        ≡ (visit_items allowed parse fuel rest >>= λ records. ok (t ∷ records))
  unfolding visit_items
  visit_items-line [] rest item t fuel h e p = absurd (omega arith)
  visit_items-line (c ∷ l) rest item t fuel h e p = simp (
    next_line-append (c ∷ l) rest h.one_line,
    le→leb (length ((c ∷ l) ++ (newline ∷ []))) max_item_line_bytes
        (omega (arith, h.short, length-append (c ∷ l) (newline ∷ []))),
    trim_line_terminator-append (c ∷ l) h.no_return,
    e,
    p,
  )

  -- The lines of a body, with what each is parsed to.
  abbrev pub Parsed : Bytes → T → Type ℓ
  Parsed l t =
      IsLine l × ((item : Params) × (parse_item_line allowed l ≡ ok item) × (parse item ≡ ok t))

  abbrev pub AllParsed : List (Bytes × T) → Type ℓ
  AllParsed [] = Unit
  AllParsed ((l, t) ∷ ls) = Parsed l t × AllParsed ls

  visit_items-lines :
      (ls : List (Bytes × T)) (fuel : ℕ)
      → AllParsed ls
      → length (body_of ls) ≤ fuel
      → visit_items allowed parse fuel (body_of ls) ≡ ok (made_of ls)
  visit_items-lines [] fuel h f = unfold visit_items in refl
  visit_items-lines ((l, t) ∷ ls) zero h f =
      absurd (omega (arith, length-append l (newline ∷ body_of ls)))
  visit_items-lines ((l, t) ∷ ls) (suc fuel) ((line, (item, e, p)), h) f = rw (
    visit_items-line l (body_of ls) item t fuel line e p,
    visit_items-lines ls fuel h
        (omega (arith, line.filled, length-append l (newline ∷ body_of ls))),
  )

  count_lines-lines :
      (ls : List (Bytes × T)) (fuel : ℕ)
      → AllParsed ls
      → length (body_of ls) ≤ fuel
      → count_lines fuel (body_of ls) ≡ ok (length ls)
  count_lines-lines [] fuel h f = unfold count_lines in refl
  count_lines-lines ((l, t) ∷ ls) zero h f =
      absurd (omega (arith, length-append l (newline ∷ body_of ls)))
  count_lines-lines ((l, t) ∷ ls) (suc fuel) ((line, (item, e, p)), h) f = rw (
    count_lines-line l (body_of ls) fuel line,
    count_lines-lines ls fuel h
        (omega (arith, line.filled, length-append l (newline ∷ body_of ls))),
  )

  -- A body of lines that are each parsed to a record gives those records, in order.
  pub parse_request_item_records-lines :
      (ls : List (Bytes × T))
      → AllParsed ls
      → parse_request_item_records allowed parse (body_of ls) ≡ ok (made_of ls)
  unfolding parse_request_item_records
  parse_request_item_records-lines ls h =
      rw (count_lines-lines ls (length (body_of ls)) h (omega arith))
        (visit_items-lines ls (length (body_of ls)) h (omega arith))
