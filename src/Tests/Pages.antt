-- ===== src/Tests/Pages.antt =====
-- Pages of a list of 45 items.
use gold_nest.Pagination.{
  meta, get_skip_take, resolve_paging, Paging, meta-has_next_page, resolve_paging-get_skip_take,
}
use gold_nest.Int.{pos}
use gold_nest.Base.{none, some, ◌≡◌, true, ◌↔◌, ◌<◌, ◌+◌, ◌≤◌}

meta-has_next_page_example :
    (meta 45 (some (pos 2)) none).has_next_page ≡ true
    ↔ (get_skip_take (some (pos 2)) none).skip + (get_skip_take (some (pos 2)) none).take < 45
meta-has_next_page_example = meta-has_next_page 45 (some (pos 2)) none

resolve_paging-get_skip_take_example :
    (p : Paging) × (resolve_paging none (some (pos 10)) (some (pos 37)) ≡ p)
    × ((get_skip_take (some (pos p.page)) (some (pos p.limit))).skip ≤ 37)
    × (37
        < (get_skip_take (some (pos p.page)) (some (pos p.limit))).skip
          + (get_skip_take (some (pos p.page)) (some (pos p.limit))).take)
    × (1 ≤ p.limit)
    × (p.limit ≤ 100)
resolve_paging-get_skip_take_example = resolve_paging-get_skip_take 37 (some (pos 10))
