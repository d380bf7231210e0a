-- ===== src/Http/Page.antt =====
-- pkg/edgeview/http_handler.go: pages of a list.
pub mod Walk
use vrtc.Base.{
  ℕ, zero, suc, ◌+◌, ◌-◌, ◌≤◌, ◌<◌, ◌≡◌, refl, sym, ap, subst, ◌∙◌, Bool, true, false, List, [],
  ◌∷◌, ◌++◌, leb, ltb, ◌==◌, arith, if◌then◌else◌, length, take, drop, length-take-le,
}
use vrtc.Base.Int.{ℤ, pos, negsuc}

-- An offset below 0 is turned away before a handler sees it: its tag says `minimum:"0"`.
pub record PaginatedInput : Type 0 where
  pub limit : ℤ
  pub offset : ℕ

pub record Page (A : Type 0) : Type 0 where
  pub items : List A
  pub total_count : ℕ
  pub limit : ℕ
  pub offset : ℕ

unfoldable pub effective_limit : ℤ → ℕ
effective_limit (negsuc n) = 100
effective_limit (pos n) = if n == 0 then 100 else if ltb 1_000 n then 1_000 else n

abbrev pub min : ℕ → ℕ → ℕ
min a b = if leb a b then a else b

-- The end of the list handlers: `all[offset:end]`, with what is said of it.
unfoldable pub page_of : {A : Type 0} → PaginatedInput → List A → Page A
page_of input all =
    let total = length all in
    let limit = effective_limit input.limit in
    let offset = min input.offset total in
    let end = min (offset + limit) total in
    record {
      items = take (end - offset) (drop offset all);
      total_count = total;
      limit = limit;
      offset = offset;
    }
