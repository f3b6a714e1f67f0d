-- ===== src/Des/Keys.antt =====
-- The keys for decryption are those for encryption in the reverse order.
use cloud_disk_server.Prelude.{ℕ, ◌≡◌, refl, List, length}
use cloud_disk_server.Des.Schedule.{Direction, deskey, cookey}
use cloud_disk_server.Des.Rounds.{in_pairs, back_to_front}

pub length-schedule : (edf : Direction) (key : List ℕ) → length (cookey 32 (deskey key edf)) ≡ 32
unfolding deskey cookey
length-schedule Direction.en0 key = refl
length-schedule Direction.de1 key = refl

-- For any width of an `unsigned long` and any key, the subkeys for decryption, taken two at a time
-- as a round takes them, are the subkeys for encryption in the reverse order.
pub schedule_reversed :
    (bits : ℕ) (key : List ℕ)
    → in_pairs (cookey bits (deskey key Direction.de1))
      ≡ back_to_front (in_pairs (cookey bits (deskey key Direction.en0)))
unfolding deskey cookey
schedule_reversed bits key = refl
