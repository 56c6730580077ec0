-- ===== src/Pagination.antt =====
-- src/common/pagination/pagination.service.ts: pages of a list, on which every listing of the services
-- relies. A page or a limit is an integer; one that was not given is `none`.
use native.Mathlib.Nat.{le-div_iff_mul-le, suc-mul, div-mul-le_self, lt-div-mul-add}
use gold_nest.Int.{ℤ, pos, negsuc}
use gold_nest.Base.{
  ℕ, ◌+◌, ◌-◌, ◌*◌, ◌/◌, max, min, Option, none, some, or_else, Bool, true, false, if◌then◌else◌,
  ◌==◌, ltb, ◌≡◌, ◌≤◌, ◌↔◌, List, ◌<◌, arith, zero, suc, refl, ap, ◌∙◌, subst, sym,
}

pub record Window : Type 0 where
  pub skip : ℕ
  pub take : ℕ
  pub page : ℕ
  pub limit : ℕ

pub record Meta : Type 0 where
  pub total_items : ℕ
  pub page : ℕ
  pub limit : ℕ
  pub total_pages : ℕ
  pub has_next_page : Bool
  pub has_prev_page : Bool

pub record Paging : Type 0 where
  pub page : ℕ
  pub limit : ℕ
  pub is_offset_used : Bool

-- `Math.max(n, …)` for an `n` that is not negative.
abbrev pub at_least : ℕ → ℤ → ℕ
at_least n (pos k) = max n k
at_least n (negsuc k) = n

abbrev pub sanitized_limit : Option ℤ → ℕ
sanitized_limit limit = min 100 (at_least 1 (or_else limit (pos 20)))

abbrev pub sanitized_page : Option ℤ → ℕ
sanitized_page page = at_least 1 (or_else page (pos 1))

unfoldable pub get_skip_take : Option ℤ → Option ℤ → Window
get_skip_take page limit = record {
  skip = (sanitized_page page - 1) * sanitized_limit limit;
  take = sanitized_limit limit;
  page = sanitized_page page;
  limit = sanitized_limit limit;
}

-- `Math.ceil(a / b)`
abbrev pub ceil_div : ℕ → ℕ → ℕ
ceil_div a b = (a + (b - 1)) / b

unfoldable pub meta : ℕ → Option ℤ → Option ℤ → Meta
unfolding get_skip_take
meta total page limit =
    let sanitized = get_skip_take page limit in
    let total_pages = if sanitized.limit == 0 then 0 else ceil_div total sanitized.limit in
    record {
      total_items = total;
      page = sanitized.page;
      limit = sanitized.limit;
      total_pages = total_pages;
      has_next_page = ltb sanitized.page total_pages;
      has_prev_page = ltb 1 sanitized.page;
    }

unfoldable pub wrap {ℓ} : {A : Type ℓ} → List A → ℕ → Option ℤ → Option ℤ → List A × Meta
unfolding get_skip_take
wrap items total page limit =
    let sanitized = get_skip_take page limit in
    (items, meta total (some (pos sanitized.page)) (some (pos sanitized.limit)))

unfoldable pub resolve_paging : Option ℤ → Option ℤ → Option ℤ → Paging
resolve_paging none limit (some offset) = record {
  page = at_least 0 offset / sanitized_limit limit + 1;
  limit = sanitized_limit limit;
  is_offset_used = true;
}
resolve_paging page limit offset = record {
  page = sanitized_page page;
  limit = sanitized_limit limit;
  is_offset_used = false;
}

limit_bounds : (limit : Option ℤ) → (1 ≤ sanitized_limit limit) × (sanitized_limit limit ≤ 100)
limit_bounds none = (omega arith, omega arith)
limit_bounds (some (pos k)) = (omega arith, omega arith)
limit_bounds (some (negsuc k)) = (omega arith, omega arith)

page_bounds : (page : Option ℤ) → 1 ≤ sanitized_page page
page_bounds none = omega arith
page_bounds (some (pos k)) = omega arith
page_bounds (some (negsuc k)) = omega arith

ceil_div-lt : (a b k : ℕ) → 1 ≤ b → (k < ceil_div a b) ↔ (k * b < a)
ceil_div-lt a b k h =
    let e = le-div_iff_mul-le {k = b} {x = suc k} {y = a + (b - 1)} h in
    let m = suc-mul k b in
    (λ (p : k < ceil_div a b). (let q = e.0 p in omega arith), λ (p : k * b < a). e.1 (omega arith))

next-lt : (p l tp : ℕ) → 1 ≤ l → (ltb p (if l == 0 then 0 else tp) ≡ true) ↔ (p < tp)
next-lt p l tp h = ground arith

shift : (p l t : ℕ) → 1 ≤ p → (p * l < t) ↔ ((p - 1) * l + l < t)
shift zero l t h = (λ x. omega arith, λ x. omega arith)
shift (suc p) l t h =
    let e = suc-mul p l in
    let f : suc p - 1 ≡ p = omega arith in
    subst (λ q. (suc p * l < t) ↔ (q * l + l < t)) (sym f) (λ x. omega arith, λ x. omega arith)

window_at :
    (q l : ℕ)
    → 1 ≤ l
    → l ≤ 100
    → ((max 1 (q + 1) - 1) * min 100 (max 1 l) ≡ q * l) × (min 100 (max 1 l) ≡ l)
window_at q l h k =
    let e : min 100 (max 1 l) ≡ l = omega arith in
    let f : max 1 (q + 1) - 1 ≡ q = omega arith in
    (ap (λ x. x * min 100 (max 1 l)) f ∙ ap (λ x. q * x) e, e)

-- There is a next page exactly where the list has items behind the window of this one.
pub meta-has_next_page :
    (total : ℕ) (page limit : Option ℤ)
    → (meta total page limit).has_next_page ≡ true
      ↔ (get_skip_take page limit).skip + (get_skip_take page limit).take < total
unfolding meta
meta-has_next_page total page limit =
    let w = get_skip_take page limit in
    let b = limit_bounds limit in
    let e = ceil_div-lt total w.limit w.page b.0 in
    let n = next-lt w.page w.limit (ceil_div total w.limit) b.0 in
    let k = shift w.page w.limit total (page_bounds page) in
    (λ x. k.0 (e.0 (n.0 x)), λ x. n.1 (e.1 (k.1 x)))

-- The page that stands for an offset that is not negative has the item at that offset in its
-- window, and its limit is between 1 and 100.
pub resolve_paging-get_skip_take :
    (offset : ℕ) (limit : Option ℤ)
    → (p : Paging) × (resolve_paging none limit (some (pos offset)) ≡ p)
      × ((get_skip_take (some (pos p.page)) (some (pos p.limit))).skip ≤ offset)
      × (offset
          < (get_skip_take (some (pos p.page)) (some (pos p.limit))).skip
            + (get_skip_take (some (pos p.page)) (some (pos p.limit))).take)
      × (1 ≤ p.limit)
      × (p.limit ≤ 100)
unfolding resolve_paging get_skip_take
resolve_paging-get_skip_take offset limit =
    let m = max 0 offset in
    let e : m ≡ offset = omega arith in
    let l = sanitized_limit limit in
    let b = limit_bounds limit in
    let w = window_at (m / l) l b.0 b.1 in
    let skip = (max 1 (m / l + 1) - 1) * min 100 (max 1 l) in
    let in_window : (skip ≤ m) × (m < skip + min 100 (max 1 l)) = (
      subst (λ x. x ≤ m) (sym w.0) (div-mul-le_self m l),
      subst (λ x. m < x + min 100 (max 1 l)) (sym w.0)
          (subst (λ x. m < m / l * l + x) (sym w.1) (lt-div-mul-add {a = m} {b = l} b.0)),
    ) in
    let at = subst (λ x. (skip ≤ x) × (x < skip + min 100 (max 1 l))) e in_window in
    (resolve_paging none limit (some (pos offset)), refl, at.0, at.1, b.0, b.1)
