-- ===== src/Md5Cgi/Loop.antt =====
-- The loop of src_cgi/md5_cgi.c over the requests.
use cloud_disk_server.Prelude.{
  ℕ, ◌≡◌, refl, ap, ◌∙◌, Bool, true, false, Option, List, [], ◌∷◌, ◌++◌,
}
use cloud_disk_server.Prelude.Outcome.{Outcome, done, fault, ◌>>=◌}
use cloud_disk_server.Redis.Hiredis.{Hiredis}
use cloud_disk_server.Cgi.Mysql.{Mysql}
use cloud_disk_server.Cgi.Login.{Response}
use cloud_disk_server.Md5Cgi.Handler.{Asked, Process, handle}

module _ (h : Hiredis) (m : Mysql) (redis_conn : Option (h.Context)) (connected : Bool)
    (pointer_bytes : ℕ) where
  open h use {Server}
  open m use {Database}

  -- A request that is answered, and behind which the program goes on.
  pub data Step (r : Asked) (p : Process Server Database)
      : Response → Process Server Database → Type 0 where
    served :
        (answer : Response) (q : Process Server Database)
        → handle h m redis_conn connected pointer_bytes r p ≡ done (answer, (true, q))
        → Step r p answer q

  -- Requests with their answers.
  pub data Reach
      : Process Server Database
        → List Asked
        → List Response
        → Process Server Database
        → Type 0 where
    none_yet : (p : Process Server Database) → Reach p [] [] p
    and_then :
        (p q t : Process Server Database) (r : Asked) (rs : List Asked) (answer : Response)
        (answers : List Response)
        → Step r p answer q
        → Reach q rs answers t
        → Reach p (r ∷ rs) (answer ∷ answers) t

  -- The answer to a request, before the answers to those behind it if the program goes on.
  unfoldable pub continued :
      Response × (Bool × Process Server Database)
      → Outcome (List Response × (Bool × Process Server Database))
      → Outcome (List Response × (Bool × Process Server Database))
  continued (r, (false, p)) rest = done (r ∷ [], (false, p))
  continued (r, (true, p)) rest = do b ← rest; done (r ∷ b.0, b.1)

  -- The answers to the requests, in order, up to the one that ends the program.
  unfoldable pub serve :
      List Asked
      → Process Server Database
      → Outcome (List Response × (Bool × Process Server Database))
  serve [] p = done ([], (true, p))
  serve (r ∷ rs) p = do
    a ← handle h m redis_conn connected pointer_bytes r p
    continued a (serve rs a.1.1)

  abbrev Served : Type 0
  Served = List Response × (Bool × Process Server Database)

  -- Answers before what is served behind them.
  abbrev pub before : List Response → Served → Outcome Served
  before answers b = done (answers ++ b.0, b.1)

  before_none : (o : Outcome Served) → o ≡ (o >>= before [])
  before_none (done b) = refl
  before_none fault = refl

  before_one :
      (a : Response) (q : Process Server Database) (answers : List Response) (o : Outcome Served)
      → continued (a, (true, q)) (o >>= before answers) ≡ (o >>= before (a ∷ answers))
  unfolding continued
  before_one a q answers (done b) = refl
  before_one a q answers fault = refl

  -- Requests that are answered, and behind which the program goes on, are served before all others.
  pub serve-append :
      (p q : Process Server Database) (rs : List Asked) (answers : List Response)
      (more : List Asked)
      → Reach p rs answers q
      → serve (rs ++ more) p ≡ (serve more q >>= before answers)
  unfolding serve
  serve-append _ _ _ _ more (none_yet p) = before_none (serve more p)
  serve-append _ _ _ _ more (and_then p q t r rs answer answers (served _ _ e) reach) = rw e (
      ap (continued (answer, (true, q))) (serve-append q t rs answers more reach)
      ∙ before_one answer q answers (serve more t))
