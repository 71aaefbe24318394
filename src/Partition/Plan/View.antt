-- ===== src/Partition/Plan/View.antt =====
-- The accessors of `Plan` (wakuwaku-iggy/src/partition/plan.rs).
use wakuwaku.Base.{ℕ, ◌-◌, List, Option, none, some, get_elem?, take, drop}
use wakuwaku.Partition.Plan.{Range, KeyPlan, Segment, Run, Plan}

-- `items[range]`
unfoldable pub slice {ℓ} : {A : Type ℓ} → List A → Range → List A
slice items range = take (range.end - range.start) (drop range.start items)

unfoldable pub segments : Plan → KeyPlan → List Segment
unfolding slice
segments p key = slice p.segments key.segments

-- `index.map(|i| &self.runs[i])`
abbrev run_at : Plan → Option ℕ → Option Run
run_at p none = none
run_at p (some i) = get_elem? p.runs i

unfoldable pub head : Plan → Segment → Option Run
head p segment = run_at p segment.head

unfoldable pub body : Plan → Segment → List Run
unfolding slice
body p segment = slice p.runs segment.body

unfoldable pub tail : Plan → Segment → Option Run
tail p segment = run_at p segment.tail

unfoldable pub records : Plan → Run → List ℕ
unfolding slice
records p run = slice p.order run.records
