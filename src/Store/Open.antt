-- ===== src/Store/Open.antt =====
-- internal/store/db.go: the two pools over one database file, with what is done to them as a log. How
-- the driver answers is a parameter. Paths are those of a system whose separator is the slash.
pub mod Dsn
pub mod Pools
use qdt_test.Common.{
  ℕ, ◌+◌, ◌/◌, ◌%◌, Text, codes, text_eq, ltb, ◌==◌, if◌then◌else◌, Option, none, some, Bool, true,
  false, not, ◌&&◌, ◌||◌, List, [], ◌∷◌, ◌++◌, Result, ok, err, between, is_digit, contains_byte,
}

-- The characters that `url.PathEscape` keeps.
unfoldable pub is_kept : ℕ → Bool
is_kept c =
    between b'a' b'z' c
    || (between b'A' b'Z' c || (is_digit c || contains_byte c (codes "-_.~$&+:=@")))

abbrev pub hex_digit : ℕ → ℕ
hex_digit n = if ltb n 10 then b'0' + n else b'7' + n

-- `url.PathEscape`.
unfoldable pub path_escape : Text → Text
unfolding is_kept
path_escape [] = []
path_escape (c ∷ s) =
    let rest = path_escape s in
    if is_kept c then c ∷ rest else b'%' ∷ hex_digit (c / 16) ∷ hex_digit (c % 16) ∷ rest

abbrev pub pragmas : Text
pragmas =
    codes "_pragma=journal_mode(WAL)"
    ++ codes "&_pragma=busy_timeout(5000)"
    ++ codes "&_pragma=foreign_keys(1)"
    ++ codes "&_pragma=synchronous(NORMAL)"

unfoldable pub base_dsn : Text → Text
base_dsn path = codes "file:" ++ path_escape path ++ b'?' ∷ pragmas

unfoldable pub write_dsn : Text → Text
write_dsn path = base_dsn path ++ codes "&_txlock=immediate"

-- `filepath.Dir`: the elements of a path, the last of them first, and its clean form.
split_slash : Text → List Text
split_slash [] = [] ∷ []
split_slash (c ∷ s) = elim (split_slash s) [
  | [] ↦ []
  | w ∷ ws ↦ if c == b'/' then [] ∷ w ∷ ws else (c ∷ w) ∷ ws
]

up : Bool → List Text → List Text
up rooted [] = if rooted then [] else codes ".." ∷ []
up rooted (w ∷ ws) = if text_eq w (codes "..") then codes ".." ∷ w ∷ ws else ws

clean_from : Bool → List Text → List Text → List Text
unfolding up
clean_from rooted done [] = done
clean_from rooted done (w ∷ ws) =
    clean_from rooted
      (if text_eq w [] || text_eq w (codes ".")
        then done
        else if text_eq w (codes "..")
        then up rooted done
        else w ∷ done)
      ws

join_slash : List Text → Text → Text
join_slash [] tail = tail
join_slash (w ∷ []) tail = w ++ tail
join_slash (w ∷ v ∷ ws) tail = join_slash (v ∷ ws) (b'/' ∷ w ++ tail)

abbrev is_rooted : Text → Bool
is_rooted [] = false
is_rooted (c ∷ s) = c == b'/'

clean_path : Text → Text
unfolding split_slash clean_from join_slash
clean_path s =
    let words = clean_from (is_rooted s) [] (split_slash s) in
    if is_rooted s
    then b'/' ∷ join_slash words []
    else if text_eq (join_slash words []) []
    then codes "."
    else join_slash words []

-- A text up to its last slash.
to_last_slash : Text → Text
to_last_slash [] = []
to_last_slash (c ∷ s) = elim (to_last_slash s) [
  | [] ↦ if c == b'/' then c ∷ [] else []
  | d ∷ t ↦ c ∷ d ∷ t
]

unfoldable pub path_dir : Text → Text
unfolding clean_path to_last_slash
path_dir path = clean_path (to_last_slash path)

pub data Pool : Type 0 where
  reader writer : Pool

pub data PoolAction : Type 0 where
  made_dir : (dir : Text) → PoolAction
  opened : Pool → (dsn : Text) → PoolAction
  limited : Pool → (connections idle : ℕ) → PoolAction
  pinged closed : Pool → PoolAction

-- What fails, and the number of processors.
pub record Driver : Type 0 where
  pub mkdir_fails : Bool
  pub open_fails : Pool → Bool
  pub ping_fails : Pool → Bool
  pub close_fails : Pool → Bool
  pub cpus : ℕ

pub data OpenError : Type 0 where
  mkdir_failed : (dir : Text) → OpenError
  open_failed : Pool → OpenError
  ping_failed : Pool → (path : Text) → OpenError

-- The fields of `DB`; a pool may be nil.
pub record DbHandle : Type 0 where
  pub write : Option Pool
  pub read : Option Pool
  pub path : Text

abbrev pub both_pools : Text → DbHandle
both_pools path = record { write = some writer; read = some reader; path = path }

infixr 20 ◌▸◌
abbrev pub ◌▸◌ {ℓ} : {A : Type ℓ} {B : Type 0} → List B → A × List B → A × List B
log ▸ (a, more) = (a, log ++ more)

abbrev pub first_error : Option Pool → Option Pool → Option Pool
first_error none e = e
first_error (some p) e = some p

module _ (d : Driver) where
  unfoldable pub close_pool : Option Pool → Option Pool × List PoolAction
  close_pool none = (none, [])
  close_pool (some p) = (if d.close_fails p then some p else none, closed p ∷ [])

  -- Closes both pools, and answers the first error.
  unfoldable pub close_db : DbHandle → Option Pool × List PoolAction
  unfolding close_pool
  close_db h = (
    first_error (close_pool h.read).0 (close_pool h.write).0,
    (close_pool h.read).1 ++ (close_pool h.write).1,
  )

  abbrev pub readers : ℕ
  readers = if ltb d.cpus 4 then 4 else d.cpus

  module _ (path : Text) where
    ping_pools : Result OpenError DbHandle × List PoolAction
    unfolding close_db
    ping_pools =
        if d.ping_fails writer
        then (err (ping_failed writer path), (close_db (both_pools path)).1)
        else (pinged writer ∷ [])
          ▸ (if d.ping_fails reader
              then (err (ping_failed reader path), (close_db (both_pools path)).1)
              else (ok (both_pools path), pinged reader ∷ []))

    open_reader : Result OpenError DbHandle × List PoolAction
    unfolding ping_pools
    open_reader =
        if d.open_fails reader
        then (err (open_failed reader), closed writer ∷ [])
        else (opened reader (base_dsn path) ∷ limited reader readers readers ∷ []) ▸ ping_pools

    open_writer : Result OpenError DbHandle × List PoolAction
    unfolding open_reader
    open_writer =
        if d.open_fails writer
        then (err (open_failed writer), [])
        else (opened writer (write_dsn path) ∷ limited writer 1 1 ∷ []) ▸ open_reader

    make_parent : Text → Result OpenError DbHandle × List PoolAction
    unfolding open_writer
    make_parent dir =
        if not (text_eq dir []) && not (text_eq dir (codes "."))
        then if d.mkdir_fails
          then (err (mkdir_failed dir), [])
          else (made_dir dir ∷ []) ▸ open_writer
        else open_writer

    unfoldable pub open_db : Result OpenError DbHandle × List PoolAction
    unfolding make_parent path_dir
    open_db = make_parent (path_dir path)
