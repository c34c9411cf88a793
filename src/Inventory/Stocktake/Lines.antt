-- ===== src/Inventory/Stocktake/Lines.antt =====
-- One line for each product and option: what `count` and `removeLine` of
-- src/modules/inventory/stocktake.service.ts keep of a count's lines.
use stock_mgt.Prelude.{
  ℕ, suc, ◌≡◌, refl, ◌∙◌, Bool, false, Option, List, [], ◌∷◌, ◌++◌, map, arith, inl, inr,
  Bool-cases, if◌then◌else◌, opt_eq→eq, opt_eq_refl,
}
use stock_mgt.Prelude.Int.{ℤ}
use stock_mgt.Prelude.Lists.{any, select}
use stock_mgt.Inventory.Stock.Tables.{Context}
use stock_mgt.Inventory.Stocktake.Rows.{StocktakeLine, is_line}
use stock_mgt.Inventory.Stocktake.Count.{CountLine, put_line, put_lines, recounted, new_line}
use stock_mgt.Inventory.Stocktake.Sheet.{Distinct, or_false}

-- A change that leaves the product and the option leaves the lines distinct.
any-recounted :
    (ctx : Context) (expected : ℤ) (input : CountLine) (here : StocktakeLine → Bool)
    (l : StocktakeLine) (ls : List StocktakeLine)
    → any
        (is_line l.product_id l.variant_id)
        (map (λ x. if here x then recounted ctx expected input x else x) ls)
      ≡ any (is_line l.product_id l.variant_id) ls
any-recounted ctx expected input here l [] = refl
any-recounted ctx expected input here l (x ∷ ls) =
    let rest = any-recounted ctx expected input here l ls in
    elim (Bool-cases (here x)) [ inl e ↦ rw (e, rest) | inr e ↦ rw (e, rest) ]

recounted-Distinct :
    (ctx : Context) (expected : ℤ) (input : CountLine) (here : StocktakeLine → Bool)
    (ls : List StocktakeLine)
    → Distinct ls
    → Distinct (map (λ x. if here x then recounted ctx expected input x else x) ls)
recounted-Distinct ctx expected input here [] h = tt
recounted-Distinct ctx expected input here (l ∷ ls) (alone, h) =
    let rest = recounted-Distinct ctx expected input here ls h in
    let same = any-recounted ctx expected input here l ls in
    elim (Bool-cases (here l)) [
      | inl e ↦ rw e (same ∙ alone, rest)
      | inr e ↦ rw e (same ∙ alone, rest)
    ]

is_line-sym :
    (l x : StocktakeLine)
    → is_line l.product_id l.variant_id x ≡ false
    → is_line x.product_id x.variant_id l ≡ false
is_line-sym l x h = elim (Bool-cases (is_line x.product_id x.variant_id l)) [
  | inr e ↦ e
  | inl e ↦ ground (arith, opt_eq→eq l.variant_id x.variant_id, opt_eq_refl l.variant_id)
]

any-appended :
    (new l : StocktakeLine) (ls : List StocktakeLine)
    → is_line l.product_id l.variant_id new ≡ false
    → any (is_line l.product_id l.variant_id) ls ≡ false
    → any (is_line l.product_id l.variant_id) (ls ++ new ∷ []) ≡ false
any-appended new l [] h k = rw h
any-appended new l (x ∷ ls) h k =
    let split =
      or_false (is_line l.product_id l.variant_id x) (any (is_line l.product_id l.variant_id) ls)
        k in
    rw (split.0, any-appended new l ls h split.1)

appended-Distinct :
    (new : StocktakeLine) (ls : List StocktakeLine)
    → any (is_line new.product_id new.variant_id) ls ≡ false
    → Distinct ls
    → Distinct (ls ++ new ∷ [])
appended-Distinct new [] h apart = (refl, tt)
appended-Distinct new (l ∷ ls) h (alone, apart) =
    let split =
      or_false (is_line new.product_id new.variant_id l)
        (any (is_line new.product_id new.variant_id) ls) h in
    (
      any-appended new l ls (is_line-sym new l split.0) alone,
      appended-Distinct new ls split.1 apart,
    )

select-any :
    (p test : StocktakeLine → Bool) (ls : List StocktakeLine)
    → any test ls ≡ false
    → any test (select p ls) ≡ false
select-any p test [] h = refl
select-any p test (l ∷ ls) h =
    let split = or_false (test l) (any test ls) h in
    elim (Bool-cases (p l)) [
      | inl e ↦ rw (e, split.0, select-any p test ls split.1)
      | inr e ↦ rw e (select-any p test ls split.1)
    ]

pub select-Distinct :
    (p : StocktakeLine → Bool) (ls : List StocktakeLine) → Distinct ls → Distinct (select p ls)
select-Distinct p [] h = tt
select-Distinct p (l ∷ ls) (alone, apart) = elim (Bool-cases (p l)) [
  | inl e ↦
      rw e (select-any p (is_line l.product_id l.variant_id) ls alone, select-Distinct p ls apart)
  | inr e ↦ rw e (select-Distinct p ls apart)
]

put_line-Distinct :
    (ctx : Context) (n : ℕ) (expected : ℤ) (input : CountLine) (ls : List StocktakeLine)
    → Distinct ls
    → Distinct (put_line ctx n expected input ls)
unfolding put_line
put_line-Distinct ctx n expected input ls h =
    elim (Bool-cases (any (is_line input.product_id input.variant_id) ls)) [
      | inl e ↦
          rw e
            (recounted-Distinct ctx expected input (is_line input.product_id input.variant_id) ls h)
      | inr e ↦ rw e (appended-Distinct (new_line ctx n expected input) ls e h)
    ]

-- A sheet that is counted, or counted again, keeps one line for each product and option.
pub put_lines-Distinct :
    (ctx : Context) (n : ℕ) (expected : ℕ → Option ℕ → ℤ) (inputs : List CountLine)
    (ls : List StocktakeLine)
    → Distinct ls
    → Distinct (put_lines ctx n expected inputs ls)
unfolding put_lines
put_lines-Distinct ctx n expected [] ls h = h
put_lines-Distinct ctx n expected (input ∷ inputs) ls h =
    put_lines-Distinct ctx (suc n) expected inputs _
      (put_line-Distinct ctx n (expected input.product_id input.variant_id) input ls h)
