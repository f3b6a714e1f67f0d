-- ===== src/Redis/Sessions.antt =====
-- Strings written and read back, on a server that answers as documented.
use cloud_disk_server.Prelude.{◌+◌, ◌<◌, false, none, some, ◌∷◌, ◌++◌}
use cloud_disk_server.Prelude.{◌≡◌, arith, length, drop, lt→ltb, take_all}
use cloud_disk_server.Prelude.Int.{pos}
use cloud_disk_server.Prelude.Outcome.{done}
use cloud_disk_server.Prelude.Text.{Bytes, eqb, eqb_refl}
use cloud_disk_server.Redis.Hiredis.{Hiredis, minus_one, redis_command}
use cloud_disk_server.Redis.Hash.{store_string}
use cloud_disk_server.Redis.Strings.{rop_set_string, rop_get_string}
use cloud_disk_server.Redis.Store.{Store, set_command}

module _ (h : Hiredis) (c : h.Context) (st : Store h c) where
  open h use {Server, command}
  open st use {value_at, set_reply, set_value, get_reply, expire_reply, expire_value}

  pub rop_set_string_lem :
      (k v : Bytes) (s : Server)
      → rop_set_string h (some c) k v s ≡ done (pos 0, (command c (set_command k v) s).1)
  unfolding rop_set_string redis_command eqb
  rop_set_string_lem k v s = rw (set_reply s k v)

  pub rop_get_string-some :
      (k v : Bytes) (buf : Bytes) (s : Server)
      → value_at s k ≡ some v
      → length v < length buf
      → rop_get_string h (some c) k buf s ≡ done ((pos 0, v ++ (0 ∷ drop (length v + 1) buf)), s)
  unfolding rop_get_string redis_command store_string
  rop_get_string-some k v buf s e fits =
      rw (get_reply s k, e, lt→ltb _ _ fits, take_all (length v) v (omega arith))

  pub rop_get_string-none :
      (k : Bytes) (buf : Bytes) (s : Server)
      → value_at s k ≡ none
      → rop_get_string h (some c) k buf s ≡ done ((minus_one, buf), s)
  unfolding rop_get_string redis_command
  rop_get_string-none k buf s e = rw (get_reply s k, e)

  -- On a server that answers SET and GET as documented, a string that fits the caller's array with
  -- its NUL and is set under a key is what a following read of that key puts there, before a NUL,
  -- with the rest of the array kept; both calls return 0, and what the server holds under any other
  -- key is as before.
  pub rop_set_string-rop_get_string :
      (k v : Bytes) (buf : Bytes) (s : Server)
      → length v < length buf
      → (t : Server) × (rop_set_string h (some c) k v s ≡ done (pos 0, t))
        × (rop_get_string h (some c) k buf t
            ≡ done ((pos 0, v ++ (0 ∷ drop (length v + 1) buf)), t))
        × ((j : Bytes) → eqb k j ≡ false → value_at t j ≡ value_at s j)
  rop_set_string-rop_get_string k v buf s fits = (
    (command c (set_command k v) s).1,
    rop_set_string_lem k v s,
    rop_get_string-some k v buf _ (rw (set_value s k v k, eqb_refl k)) fits,
    λ j e. rw (set_value s k v j, e),
  )
