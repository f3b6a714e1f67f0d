-- ===== src/Redis/HashStore.antt =====
-- What is assumed of a Redis server that keeps hash tables: the documented replies of the commands
-- HSET, HGET, HDEL and HMSET.
use cloud_disk_server.Prelude.{ℕ, ◌<◌, ◌≢◌, Option, none, some, List, [], ◌∷◌, ◌++◌, ◌≡◌}
use cloud_disk_server.Prelude.{All, ◌&&◌, if◌then◌else◌}
use cloud_disk_server.Prelude.Text.{Bytes, codes, eqb}
use cloud_disk_server.Redis.Hiredis.{Hiredis, Command, args, raw, text}
use cloud_disk_server.Redis.Hash.{hset_command}
use cloud_disk_server.Redis.HmsetText.{pair_words}
use cloud_disk_server.Redis.Store.{ok_reply, integer_reply, value_reply, held}

abbrev pub hget_command : Bytes → Bytes → Command
hget_command k f = args (text (codes "hget") ∷ text k ∷ text f ∷ [])

abbrev pub hdel_command : Bytes → Bytes → Command
hdel_command k f = args (text (codes "hdel") ∷ text k ∷ text f ∷ [])

abbrev pub hmset_command : Bytes → List (Bytes × Bytes) → Command
hmset_command k pairs = raw (codes "hmset " ++ (k ++ pair_words pairs))

-- The number of fields that HSET adds.
abbrev pub added : Option Bytes → ℕ
added none = 1
added (some v) = 0

-- What a field holds behind the pairs, over what it held.
unfoldable pub overlaid : List (Bytes × Bytes) → Bytes → Option Bytes → Option Bytes
overlaid [] f o = o
overlaid ((g, v) ∷ rest) f o = overlaid rest f (if eqb g f then some v else o)

-- A byte that hiredis takes as it stands in a text that it splits at spaces.
abbrev pub IsPlain : ℕ → Type 0
IsPlain x = (0 < x) × (x ≢ 32) × (x ≢ b'%')

abbrev pub IsWord : Bytes → Type 0
IsWord [] = ⊥
IsWord (x ∷ xs) = All IsPlain (x ∷ xs)

abbrev pub IsWordPair : Bytes × Bytes → Type 0
IsWordPair (f, v) = IsWord f × IsWord v

-- `field_at s` is what the server holds in the state `s`, by the key and the field.
pub record HashStore (h : Hiredis) (c : h.Context) : Type 0 where
  pub field_at : h.Server → Bytes → Bytes → Option Bytes
  pub hset_reply :
      (s : h.Server) (k f v : Bytes)
      → (h.command c (hset_command k (f, v)) s).0 ≡ some (integer_reply (added (field_at s k f)))
  pub hset_value :
      (s : h.Server) (k f v j g : Bytes)
      → field_at (h.command c (hset_command k (f, v)) s).1 j g
        ≡ (if eqb k j && eqb f g then some v else field_at s j g)
  pub hget_reply :
      (s : h.Server) (k f : Bytes)
      → h.command c (hget_command k f) s ≡ (some (value_reply (field_at s k f)), s)
  pub hdel_reply :
      (s : h.Server) (k f : Bytes)
      → (h.command c (hdel_command k f) s).0 ≡ some (integer_reply (held (field_at s k f)))
  pub hdel_value :
      (s : h.Server) (k f j g : Bytes)
      → field_at (h.command c (hdel_command k f) s).1 j g
        ≡ (if eqb k j && eqb f g then none else field_at s j g)
  pub hmset_reply :
      (s : h.Server) (k : Bytes) (p : Bytes × Bytes) (pairs : List (Bytes × Bytes))
      → IsWord k
      → All IsWordPair (p ∷ pairs)
      → (h.command c (hmset_command k (p ∷ pairs)) s).0 ≡ some ok_reply
  pub hmset_value :
      (s : h.Server) (k : Bytes) (p : Bytes × Bytes) (pairs : List (Bytes × Bytes)) (j g : Bytes)
      → IsWord k
      → All IsWordPair (p ∷ pairs)
      → field_at (h.command c (hmset_command k (p ∷ pairs)) s).1 j g
        ≡ (if eqb k j then overlaid (p ∷ pairs) g (field_at s j g) else field_at s j g)
