-- ===== src/Upload/Disk.antt =====
-- What an upload by src_cgi/upload_cgi.c leaves on a disk whose calls do as documented, and the
-- digest that is stored.
use cloud_disk_server.Prelude.{
  ◌<◌, ◌≡◌, refl, ap, ◌∙◌, Bool, true, false, not, Option, none, some, List, [], ◌∷◌, ◌++◌, map,
  length, drop, All, if◌then◌else◌,
}
use mathlib.Core.Path.{subst}
use cloud_disk_server.Prelude.Int.{ℤ}
use cloud_disk_server.Prelude.Outcome.{done}
use cloud_disk_server.Prelude.Text.{Bytes, codes, eqb, eqb_refl}
use cloud_disk_server.Md5.Context.{hex}
use cloud_disk_server.Md5.Spec.{joined, md5}
use cloud_disk_server.Cgi.Mysql.{Mysql, QueryResult}
use cloud_disk_server.Cgi.Login.{json, success}
use cloud_disk_server.Util.Names.{get_extension}
use cloud_disk_server.Util.FileMd5.{IsBlock}
use cloud_disk_server.Util.UserFile.{user_file_sql}
use cloud_disk_server.Upload.Store.{System, upload_done, child_text, file_info_sql, save_file}
use cloud_disk_server.Upload.Form.{Form}
use cloud_disk_server.Upload.Stored.{both_rows, save_file_lem}

abbrev pub is_there : Option Bytes → Bool
is_there none = false
is_there (some text) = true

abbrev pub text_of : Option Bytes → Bytes
text_of none = []
text_of (some text) = text

-- What `read` gives of a text, in blocks of 1024 bytes.
pub record Blocks (text : Bytes) (given : Option (List (Option Bytes))) : Type 0 where
  pub full_blocks : List Bytes
  pub last : Bytes
  pub full : All IsBlock full_blocks
  pub short : length last < 1024
  pub whole : joined (full_blocks ++ (last ∷ [])) ≡ text
  pub given_blocks : given ≡ some (map some full_blocks ++ (some last ∷ []))

-- A disk of files that may all be read and written, with room: `access` tells whether a file is
-- there, an open creates an empty file if it is told to and there is none, and never shortens one
-- that is there, a write puts all its bytes over those from the start of the file on, and neither
-- touches another file.
pub record Files (sys : System) : Type 0 where
  pub file_at : sys.Disk → Bytes → Option Bytes
  pub exists_lem : (d : sys.Disk) (p : Bytes) → sys.exists p d ≡ is_there (file_at d p)
  pub open_ok :
      (d : sys.Disk) (p : Bytes) → (sys.open_out (not (is_there (file_at d p))) p d).0 ≡ true
  pub open_value :
      (d : sys.Disk) (p q : Bytes)
      → file_at (sys.open_out (not (is_there (file_at d p))) p d).1 q
        ≡ (if eqb p q then some (text_of (file_at d p)) else file_at d q)
  pub write_ok :
      (d : sys.Disk) (p content old : Bytes)
      → file_at d p ≡ some old
      → (sys.write p (some content) d).0 ≡ true
  pub write_value :
      (d : sys.Disk) (p content old q : Bytes)
      → file_at d p ≡ some old
      → file_at (sys.write p (some content) d).1 q
        ≡ (if eqb p q then some (content ++ drop (length content) old) else file_at d q)
  pub read_back :
      (d : sys.Disk) (p text : Bytes) → file_at d p ≡ some text → Blocks text (sys.reads p d)

module _ (m : Mysql) (sys : System) (files : Files sys) (stack : Bytes) (f : Form) (uid : ℤ)
    (file_id suffix : Bytes) (db : m.Database) (disk : sys.Disk) where
  open m use {query}
  open sys use {Disk, exists, open_out, write, reads, fdfs}
  open files use {file_at, exists_lem, open_ok, open_value, write_ok, write_value, read_back}

  abbrev pub tmp_path : Bytes
  tmp_path = codes "/tmp/" ++ f.name

  -- The file behind the upload.
  abbrev pub left : Bytes
  left = f.content ++ drop (length (f.content)) (text_of (file_at disk tmp_path))

  abbrev pub left_info_sql : Bytes
  left_info_sql = file_info_sql file_id (hex (md5 left)) (length (f.content)) suffix

  abbrev pub left_user_sql : Bytes
  left_user_sql = user_file_sql uid (hex (md5 left)) (f.name)

  -- The two statements with the digest of a text fit their arrays and are taken.
  abbrev Accepts : Bytes → Type 0
  Accepts text =
      let info = file_info_sql file_id (hex (md5 text)) (length (f.content)) suffix in
      let user = user_file_sql uid (hex (md5 text)) (f.name) in
      (length info < 1024)
      × (length user < 1024)
      × ((query info db).0 ≡ QueryResult.no_result)
      × ((query user (query info db).1).0 ≡ QueryResult.no_result)

  abbrev opened_disk : Disk
  opened_disk = (open_out (not (is_there (file_at disk tmp_path))) tmp_path disk).1

  abbrev end : Disk
  end = (write tmp_path (some (f.content)) opened_disk).1

  opened_file : file_at opened_disk tmp_path ≡ some (text_of (file_at disk tmp_path))
  opened_file = open_value disk tmp_path tmp_path ∙ rw (eqb_refl tmp_path) refl

  file_behind : (q : Bytes) → file_at end q ≡ (if eqb tmp_path q then some left else file_at disk q)
  file_behind q =
      write_value opened_disk tmp_path (f.content) (text_of (file_at disk tmp_path)) q opened_file
      ∙ rw (open_value disk tmp_path q) (same_branch (eqb tmp_path q))
    where
      same_branch :
          (b : Bool)
          → (if b
              then some left
              else (if b then some (text_of (file_at disk tmp_path)) else file_at disk q))
            ≡ (if b then some left else file_at disk q)
      same_branch true = refl
      same_branch false = refl

  -- The upload is stored, with the digest of a text.
  abbrev Saves : Bytes → Type 0
  Saves text =
      save_file m sys true stack uid (f.name) (some (f.content)) db disk
      ≡ done (
        json success (codes "msg") upload_done,
        (both_rows m uid (f.name) file_id (hex (md5 text)) (length (f.content)) suffix db, end),
      )

  read_left : Blocks left (reads tmp_path end)
  read_left = read_back end tmp_path left (file_behind tmp_path ∙ rw (eqb_refl tmp_path) refl)

  open_lem : open_out (not (exists tmp_path disk)) tmp_path disk ≡ (true, opened_disk)
  open_lem = rw (exists_lem disk tmp_path) (ap (λ b. (b, opened_disk)) (open_ok disk tmp_path))

  write_lem : write tmp_path (some (f.content)) opened_disk ≡ (true, end)
  write_lem =
      ap (λ b. (b, end))
        (write_ok opened_disk tmp_path (f.content) (text_of (file_at disk tmp_path)) opened_file)

  -- On a disk of files that may be read and written, a file that is uploaded is put over the file
  -- of the same name in /tmp, whose end stays if it was the longer one; every other file is as it
  -- was. The digest that the database is given is that of what then stands in the file, the size
  -- that of the upload. The upload has bytes, and the conditions on the child, the suffix, the
  -- database and the statements are those under which an upload is stored.
  pub save_file-left :
      length stack ≡ 64
      → 0 < length (f.content)
      → 0 < length file_id
      → get_extension 513 (f.name) ≡ done suffix
      → length left_info_sql < 1024
      → length left_user_sql < 1024
      → (query left_info_sql db).0 ≡ QueryResult.no_result
      → (query left_user_sql (query left_info_sql db).1).0 ≡ QueryResult.no_result
      → length tmp_path < 1024
      → ((d : Disk) → child_text (fdfs tmp_path d) ≡ done file_id)
      → (end : Disk) × (save_file m sys true stack uid (f.name) (some (f.content)) db disk
          ≡ done (
            json success (codes "msg") upload_done,
            (both_rows m uid (f.name) file_id (hex (md5 left)) (length (f.content)) suffix db, end),
          ))
        × ((q : Bytes) → file_at end q ≡ (if eqb tmp_path q then some left else file_at disk q))
  save_file-left stack_size content_some id_some suffix_of fits_info fits_user ok_info ok_user
        path_fits id_of =
      (
        end,
        subst (λ (text : Bytes). Accepts text → Saves text) (read_left.whole) stored
            (fits_info, fits_user, ok_info, ok_user),
        file_behind,
      )
    where
      stored :
          Accepts (joined (read_left.full_blocks ++ (read_left.last ∷ [])))
          → Saves (joined (read_left.full_blocks ++ (read_left.last ∷ [])))
      stored accepts =
          save_file_lem m sys stack f uid (read_left.full_blocks) (read_left.last) [] file_id suffix
            db stack_size content_some id_some (read_left.full) (read_left.short) suffix_of
            accepts.0 accepts.1 accepts.2 accepts.3 disk opened_disk end path_fits open_lem
            write_lem (id_of end) (read_left.given_blocks)
