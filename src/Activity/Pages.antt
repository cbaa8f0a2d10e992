-- ===== src/Activity/Pages.antt =====
-- Pages of a queue.
use pod_backend.Common.{ℕ, ◌+◌, ◌≡◌, take-more, drop-more, slice-cut, List, ◌++◌, take, drop}
use pod_backend.Activity.Requests.{paginate}
use pod_backend.Entity.Activity.{PlayerActivityGame}

-- A page is the part of the queue behind the offset, cut at the limit.
pub paginate-cut :
    (items : List PlayerActivityGame) (limit offset : ℕ)
    → paginate items limit offset ≡ take limit (drop offset items)
unfolding paginate
paginate-cut items limit offset = slice-cut items limit offset

-- Pages that follow one another join up: nothing between them is lost or shown twice.
pub paginate-append :
    (items : List PlayerActivityGame) (limit limit' offset : ℕ)
    → paginate items limit offset ++ paginate items limit' (offset + limit)
      ≡ paginate items (limit + limit') offset
paginate-append items limit limit' offset =
    rw
      (
        paginate-cut items limit offset,
        paginate-cut items limit' (offset + limit),
        paginate-cut items (limit + limit') offset,
        ← (drop-more offset limit items),
      )
      (take-more limit limit' (drop offset items))
