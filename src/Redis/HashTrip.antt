-- ===== src/Redis/HashTrip.antt =====
-- Hash tables written and read back, on a server that answers as documented.
use cloud_disk_server.Prelude.{
  ◌+◌, ◌<◌, ◌≤◌, Option, none, some, List, ◌∷◌, ◌++◌, ◌≡◌, refl, ap, ◌∙◌, arith, true, false,
}
use cloud_disk_server.Prelude.{length, drop, lt→ltb, All, take_all, if◌then◌else◌, ltb, ◌&&◌}
use cloud_disk_server.Prelude.Int.{ℤ, pos}
use cloud_disk_server.Prelude.Outcome.{Outcome, done, fault}
use cloud_disk_server.Prelude.Text.{Bytes, eqb, eqb_refl}
use cloud_disk_server.Redis.Hiredis.{Hiredis, minus_one, redis_command, bind_done, lift}
use cloud_disk_server.Redis.Hash.{
  rop_hash_set, rop_hash_get, rop_hash_del, rop_create_or_replace_hash_table, store_string,
  hset_command,
}
use cloud_disk_server.Redis.Hmset.{values_id_size, megabyte, make_hmset_command}
use cloud_disk_server.Redis.HmsetText.{Fits, pair_size, make_hmset_command-words}
use cloud_disk_server.Redis.HashStore.{
  HashStore, hdel_command, hmset_command, overlaid, IsWord, IsWordPair,
}

-- What `rop_hash_get` returns and leaves in the array, for what the field holds.
abbrev pub read_back : Option Bytes → Bytes → ℤ × Bytes
read_back none buf = (minus_one, buf)
read_back (some v) buf = (pos 0, v ++ (0 ∷ drop (length v + 1) buf))

-- A value of at most 1024 bytes that fits the array with its NUL.
abbrev pub HasRoom : Bytes → Option Bytes → Type 0
HasRoom buf none = Unit
HasRoom buf (some v) = (length v ≤ values_id_size) × (length v < length buf)

stored :
    (buf v : Bytes)
    → HasRoom buf (some v)
    → store_string buf v (if ltb values_id_size (length v) then values_id_size else length v)
      ≡ done (v ++ (0 ∷ drop (length v + 1) buf))
unfolding store_string
stored buf v room =
    rw (test_false, lt→ltb (length v) (length buf) room.1, take_all (length v) v (omega arith)) refl
  where
    test_false : ltb values_id_size (length v) ≡ false
    test_false = ground (arith, room.0)

module _ (h : Hiredis) (c : h.Context) (st : HashStore h c) where
  open h use {Server, command}
  open st use {
    field_at, hset_reply, hset_value, hget_reply, hdel_reply, hdel_value, hmset_reply, hmset_value,
  }

  pub rop_hash_get-held :
      (k f : Bytes) (o : Option Bytes) (buf : Bytes) (s : Server)
      → field_at s k f ≡ o
      → HasRoom buf o
      → rop_hash_get h (some c) k f buf s ≡ done (read_back o buf, s)
  unfolding rop_hash_get redis_command
  rop_hash_get-held k f none buf s e room = rw (hget_reply s k f, e) refl
  rop_hash_get-held k f (some v) buf s e room =
      rw (hget_reply s k f, e) (rw (stored buf v room) refl)

  -- HSET and HDEL, and the reading of any field behind them.
  pub rop_hash_set_lem :
      (k f v : Bytes) (s : Server)
      → rop_hash_set h (some c) k f v s ≡ done (pos 0, (command c (hset_command k (f, v)) s).1)
  unfolding rop_hash_set redis_command
  rop_hash_set_lem k f v s = rw (hset_reply s k f v) refl

  rop_hash_del_lem :
      (k f v : Bytes) (s : Server)
      → field_at s k f ≡ some v
      → rop_hash_del h (some c) k f s ≡ done (pos 0, (command c (hdel_command k f) s).1)
  unfolding rop_hash_del redis_command
  rop_hash_del_lem k f v s e = rw (hdel_reply s k f, e) refl

  rop_hash_del-none :
      (k f : Bytes) (s : Server) → field_at s k f ≡ none → rop_hash_del h (some c) k f s ≡ fault
  unfolding rop_hash_del redis_command
  rop_hash_del-none k f s e = rw (hdel_reply s k f, e) refl

  and_refl : (k f : Bytes) → (eqb k k && eqb f f) ≡ true
  and_refl k f = rw (eqb_refl k, eqb_refl f) refl

  -- On a server that answers HSET, HGET and HDEL as documented: a value of at most 1024 bytes that
  -- is set in a field, and fits the array with its NUL, is read back; `rop_hash_del` then returns
  -- 0, and behind it the field gives -1 and leaves the array, and a second `rop_hash_del`, which is
  -- to return -1, reads an argument of its log line that is not there.
  pub rop_hash_set-rop_hash_get :
      (k f v buf : Bytes) (s : Server)
      → length v ≤ values_id_size
      → length v < length buf
      → (t : Server) × (u : Server) × (rop_hash_set h (some c) k f v s ≡ done (pos 0, t))
        × (rop_hash_get h (some c) k f buf t
            ≡ done ((pos 0, v ++ (0 ∷ drop (length v + 1) buf)), t))
        × (rop_hash_del h (some c) k f t ≡ done (pos 0, u))
        × (rop_hash_get h (some c) k f buf u ≡ done ((minus_one, buf), u))
        × (rop_hash_del h (some c) k f u ≡ fault)
  rop_hash_set-rop_hash_get k f v buf s small fits = (
    t,
    u,
    rop_hash_set_lem k f v s,
    rop_hash_get-held k f (some v) buf t there (small, fits),
    rop_hash_del_lem k f v t there,
    rop_hash_get-held k f none buf u gone tt,
    rop_hash_del-none k f u gone,
  )
    where
      t : Server
      t = (command c (hset_command k (f, v)) s).1

      u : Server
      u = (command c (hdel_command k f) t).1

      there : field_at t k f ≡ some v
      there = hset_value s k f v k f ∙ rw (and_refl k f) refl

      gone : field_at u k f ≡ none
      gone = hdel_value t k f k f ∙ rw (and_refl k f) refl

  -- On a server that answers HMSET and HGET as documented: with a key of at most 200 bytes and with
  -- at least one pair, where the key, the fields and the values are words, the fields and values
  -- fit their arrays and the pairs with 206 bytes for the key are below one megabyte, the call that
  -- is to create or replace a table returns 0, and every field then gives the last value that the
  -- pairs have for it, and what it held before if they have none, if that value has at most 1024
  -- bytes and fits the array with its NUL: the fields of an older table are not removed.
  pub rop_create_or_replace_hash_table-overlaid :
      (k : Bytes) (p : Bytes × Bytes) (pairs : List (Bytes × Bytes)) (f buf : Bytes) (s : Server)
      → IsWord k
      → All IsWordPair (p ∷ pairs)
      → length k ≤ 200
      → All Fits (p ∷ pairs)
      → 206 + pair_size (p ∷ pairs) < megabyte
      → HasRoom buf (overlaid (p ∷ pairs) f (field_at s k f))
      → (t : Server) × (rop_create_or_replace_hash_table h (some c) k (p ∷ pairs) s
          ≡ done (pos 0, t))
        × (rop_hash_get h (some c) k f buf t
            ≡ done (read_back (overlaid (p ∷ pairs) f (field_at s k f)) buf, t))
  unfolding rop_create_or_replace_hash_table redis_command eqb
  rop_create_or_replace_hash_table-overlaid k p pairs f buf s word words short fits room has_room =
      (
        (command c (hmset_command k (p ∷ pairs)) s).1,
        bind_done (lift (make_hmset_command k (p ∷ pairs))) _ (
              ap (λ (o : Outcome Bytes). lift o s)
                (make_hmset_command-words k (p ∷ pairs) short fits room))
            ∙ rw (hmset_reply s k p pairs word words) refl,
        rop_hash_get-held k f (overlaid (p ∷ pairs) f (field_at s k f)) buf _
            (hmset_value s k p pairs k f word words ∙ rw (eqb_refl k) refl) has_room,
      )
