-- ===== src/Storage/Reading.antt =====
-- storage/memory.py: `read_events()` of a chain.
use epistemos.Common.{ℕ, ◌+◌, ◌<◌, ◌≡◌, refl, String, List, [], ◌∷◌, arith, filter, ltb}
use epistemos.Host.{Host}
use epistemos.Ledger.{LedgerRecord}
use epistemos.Ledger.Chain.{Chain}

-- No record stands at place 0, so `read_events()` gives them all.
pub read_all :
    (h : Host) (rs : List LedgerRecord) (prev last : String) (n : ℕ)
    → 0 < n
    → Chain h prev n rs last
    → filter (λ r. ltb 0 r.seq) rs ≡ rs
read_all h [] prev last n pos c = refl
read_all h (r ∷ rs) prev last n pos c =
    let rest = read_all h rs r.entry_hash last (n + 1) (omega arith) c.1 in
    ground (arith, rest, c.0.at_seq)
