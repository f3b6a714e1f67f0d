-- ===== src/Util/Query.antt =====
-- `query_parse_key_value` of common/util_cgi.c: a value out of `abc=123&bbb=456`.
use cloud_disk_server.Prelude.{ℕ, ◌+◌, ◌<◌, ◌≡◌, ◌≢◌, refl, sym, arith, ◌||◌, Option, none, some}
use cloud_disk_server.Prelude.{
  [], ◌∷◌, ◌++◌, length, drop, All, ◌==◌, if◌then◌else◌, drop-append, append_assoc, length-append,
  lt→ltb,
}
use cloud_disk_server.Prelude.Int.{ℤ, pos}
use cloud_disk_server.Prelude.Outcome.{Outcome, done, fault, ◌>>=◌}
use cloud_disk_server.Prelude.Text.{Bytes}
use cloud_disk_server.Redis.Hiredis.{minus_one}
use cloud_disk_server.Util.Strstr.{strstr}
use cloud_disk_server.Util.Names.{fitted}

-- The loop that looks for the end of the value.
unfoldable pub value_text : Bytes → Bytes
value_text [] = []
value_text (c ∷ cs) = let rest = value_text cs in if c == b'#' || c == b'&' then [] else c ∷ rest

-- Behind the key one byte is passed over; without one the loop starts behind the NUL of the query.
unfoldable pub value_of : ℕ → Bytes → Outcome (ℤ × Option Bytes)
value_of size [] = fault
value_of size (c ∷ rest) = do value ← fitted size (value_text rest); done (pos 0, some value)

-- What is returned, and the string that is written to an array of `size` bytes, if it is; its
-- length is the number that is stored for `value_len_p`.
unfoldable pub query_parse_key_value : ℕ → Bytes → Bytes → Outcome (ℤ × Option Bytes)
query_parse_key_value size query key = elim (strstr query key) [
  | none ↦ done (minus_one, none)
  | some i ↦ value_of size (drop (i + length key) query)
]

abbrev pub IsPlain : Bytes → Type 0
IsPlain = All (λ c. (c ≢ b'#') × (c ≢ b'&'))

-- What may stand behind a value.
pub data IsEnd : Bytes → Type 0 where
  ended : IsEnd []
  next : (rest : Bytes) → IsEnd (b'&' ∷ rest)
  fragment : (rest : Bytes) → IsEnd (b'#' ∷ rest)

value_text_end : (rest : Bytes) → IsEnd rest → value_text rest ≡ []
unfolding value_text
value_text_end _ ended = refl
value_text_end _ (next rest) = refl
value_text_end _ (fragment rest) = refl

value_text-append :
    (value rest : Bytes) → IsPlain value → IsEnd rest → value_text (value ++ rest) ≡ value
unfolding value_text
value_text-append [] rest h e = value_text_end rest e
value_text-append (c ∷ value) rest h e =
    ground (arith, h.0.0, h.0.1, value_text-append value rest h.1 e)

behind_key : (pre key rest : Bytes) → drop (length pre + length key) (pre ++ (key ++ rest)) ≡ rest
behind_key pre key rest =
    rw (sym (append_assoc pre key rest), sym (length-append pre key))
      (drop-append (pre ++ key) rest)

value_of_lem :
    (size : ℕ) (value rest : Bytes)
    → IsPlain value
    → IsEnd rest
    → length value < size
    → value_of size (b'=' ∷ (value ++ rest)) ≡ done (pos 0, some value)
unfolding value_of fitted
value_of_lem size value rest plain e fits =
    rw (value_text-append value rest plain e, lt→ltb _ _ fits) refl

-- A query in which the key stands for the first time before an equals sign: the value behind it, up
-- to the next `&`, `#` or the end, is what is written, if it has room with its NUL.
pub query_parse_key_value_found :
    (size : ℕ) (pre key value rest : Bytes)
    → strstr (pre ++ (key ++ (b'=' ∷ (value ++ rest)))) key ≡ some (length pre)
    → IsPlain value
    → IsEnd rest
    → length value < size
    → query_parse_key_value size (pre ++ (key ++ (b'=' ∷ (value ++ rest)))) key
      ≡ done (pos 0, some value)
unfolding query_parse_key_value
query_parse_key_value_found size pre key value rest found plain e fits =
    rw (found, query_parse_key_value)
      (rw (behind_key pre key (b'=' ∷ (value ++ rest))) (value_of_lem size value rest plain e fits))
