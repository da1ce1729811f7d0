-- ===== src/Page/Differences.antt =====
-- The differences of src/libstatgrab/page_stats.c, on every branch.
use libstatgrab.Base.{◌≡◌, ◌<◌, refl, ap, Option, none, some}
use libstatgrab.Base.Word.{u64_mod, add64, sub64-add64}
use libstatgrab.Base.Bytes.{codes}
use libstatgrab.Error.{World, sg_get_error, sg_set_error_fmt, sg_set_error_int}
use libstatgrab.Error.Slot.{get_error-set}
use libstatgrab.Error.Codes.{error_none, error_invalid_argument}
use libstatgrab.Page.{PageStats, no_page_stats, page_subtract, sg_get_page_stats_diff_int}

-- Every number is a 64-bit word.
pub record IsWords (s : PageStats) : Type 0 where
  pub pages_pagein_word : s.pages_pagein < u64_mod
  pub pages_pageout_word : s.pages_pageout < u64_mod
  pub systime_word : s.systime < u64_mod

-- The counters of `last` after they have gone on by `delta`, wrapping.
abbrev pub advanced : PageStats → PageStats → PageStats
advanced delta last = record {
  pages_pagein = add64 delta.pages_pagein last.pages_pagein;
  pages_pageout = add64 delta.pages_pageout last.pages_pageout;
  systime = add64 delta.systime last.systime;
}

page_subtract-advanced :
    (delta last : PageStats)
    → IsWords delta
    → IsWords last
    → page_subtract (advanced delta last) last ≡ delta
page_subtract-advanced delta last d l =
    rw
      (
        sub64-add64 delta.pages_pagein last.pages_pagein d.pages_pagein_word l.pages_pagein_word,
        sub64-add64 delta.pages_pageout last.pages_pageout d.pages_pageout_word
            l.pages_pageout_word,
        sub64-add64 delta.systime last.systime d.systime_word l.systime_word,
      )
      refl

-- `sg_get_page_stats_diff_int`: with a last item of which the counters have since gone on by
-- `delta`, wrapping around their 64 bits where they must, the target becomes `delta`. Without a last
-- item it becomes the current one, without a current one it is cleared, and without a target
-- `SG_ERROR_INVALID_ARGUMENT` is returned and set.
pub page_diff_lem :
    (tgt delta last now : PageStats) (old : Option PageStats) (w : World)
    → IsWords delta
    → IsWords last
    → (sg_get_page_stats_diff_int (some tgt) (some (advanced delta last)) (some last) w
        ≡ (error_none, some delta, w))
      × (sg_get_page_stats_diff_int (some tgt) (some now) none w ≡ (error_none, some now, w))
      × (sg_get_page_stats_diff_int (some tgt) none old w ≡ (error_none, some no_page_stats, w))
      × (let (rc, _, w') = sg_get_page_stats_diff_int none (some now) old w in
          (rc ≡ error_invalid_argument) × (sg_get_error w' ≡ error_invalid_argument))
unfolding sg_get_page_stats_diff_int sg_set_error_fmt sg_set_error_int
page_diff_lem tgt delta last now old w d l = (
  ap (λ (s : PageStats). (error_none, some s, w)) (page_subtract-advanced delta last d l),
  refl,
  refl,
  (refl, get_error-set error_invalid_argument 0 (some (codes "sg_get_page_stats_diff_int(tgt)")) w),
)
