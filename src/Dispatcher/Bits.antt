-- ===== src/Dispatcher/Bits.antt =====
-- Bit sets and counters: sync_bitfield.go and utils/syncutil/counters.go.
use kraken.Base.{
  ℕ, zero, suc, ◌+◌, ◌-◌, Bool, true, false, not, List, [], ◌∷◌, if◌then◌else◌, ◌==◌, ◌&&◌, ◌||◌,
  ltb, length, get_or, set,
}
use kraken.PieceRequest.{Status}
use kraken.Dispatcher.Types.{Counter}

-- `SetTo(i, true)`, which extends the bit set where it has to.
unfoldable pub set_bit : ℕ → List Bool → List Bool
set_bit zero [] = true ∷ []
set_bit zero (b ∷ bs) = true ∷ bs
set_bit (suc i) [] = false ∷ set_bit i []
set_bit (suc i) (b ∷ bs) = b ∷ set_bit i bs

unfoldable pub set_all : List Bool → List Bool
set_all [] = []
set_all (b ∷ bs) = true ∷ set_all bs

-- `syncBitfield.Complete`
unfoldable pub all_bits : List Bool → Bool
all_bits [] = true
all_bits (b ∷ bs) = b && all_bits bs

unfoldable pub all_set_from : ℕ → List Bool → List ℕ
all_set_from i [] = []
all_set_from i (b ∷ bs) = if b then i ∷ all_set_from (suc i) bs else all_set_from (suc i) bs

-- `GetAllSet`
unfoldable pub all_set : List Bool → List ℕ
unfolding all_set_from
all_set bs = all_set_from 0 bs

unfoldable pub wanted_from : ℕ → List Bool → List Bool → List ℕ
wanted_from i [] ts = []
wanted_from i (b ∷ bs) [] = []
wanted_from i (b ∷ bs) (t ∷ ts) =
    if b && not t then i ∷ wanted_from (suc i) bs ts else wanted_from (suc i) bs ts

-- The set bits of `p.bitfield.Intersection(d.torrent.Bitfield().Complement())`.
unfoldable pub wanted : List Bool → List Bool → List ℕ
unfolding wanted_from
wanted bits torrent = wanted_from 0 bits torrent

unfoldable pub member : ℕ → List ℕ → Bool
member i [] = false
member i (x ∷ xs) = (x == i) || member i xs

-- The statuses whose requests are not sent to the same peer again.
abbrev pub is_refusal : Status → Bool
is_refusal Status.expired = true
is_refusal Status.invalid = true
is_refusal _ = false

abbrev pub zero_counter : Counter
zero_counter = record { ups = 0; downs = 0 }

unfoldable pub new_counters : ℕ → List Counter
new_counters zero = []
new_counters (suc n) = zero_counter ∷ new_counters n

-- `Increment` and `Decrement` of an index in range.
unfoldable pub count_up : ℕ → List Counter → List Counter
count_up i cs = let c = get_or cs i zero_counter in set cs i (record c { ups = suc c.ups })

unfoldable pub count_down : ℕ → List Counter → List Counter
count_down i cs = let c = get_or cs i zero_counter in set cs i (record c { downs = suc c.downs })

unfoldable pub count_all : (ℕ → List Counter → List Counter) → List ℕ → List Counter → List Counter
count_all f [] cs = cs
count_all f (i ∷ is) cs = count_all f is (f i cs)

-- An index out of range panics.
unfoldable pub in_range : List ℕ → List Counter → Bool
in_range [] cs = true
in_range (i ∷ is) cs = ltb i (length cs) && in_range is cs

unfoldable pub total_downs : List Counter → ℕ
total_downs [] = 0
total_downs (c ∷ cs) = c.downs + total_downs cs

-- The counts, raised by the same number such that none is negative: a priority is only compared.
unfoldable pub priority : List Counter → ℕ → ℕ
unfolding total_downs
priority cs i = let c = get_or cs i zero_counter in c.ups + (total_downs cs - c.downs)
