-- ===== src/Store/Migrate.antt =====
-- internal/store/migrate.go: the calls of goose, with its one-time configuration. What goose answers
-- is a parameter; what it is told is a log.
use qdt_test.Common.{
  arith, ℕ, if◌then◌else◌, ◌≡◌, refl, Option, none, some, Bool, true, false, List, [], ◌∷◌, ◌++◌,
  map, Result, ok, err, Bool-cases, inl, inr,
}

pub data GooseAction : Type 0 where
  set_base_fs set_logger set_dialect up_to_last down_one get_version : GooseAction

pub data MigrateError : Type 0 where
  configure_failed apply_failed roll_back_failed read_failed : MigrateError

-- How goose answers during one call.
pub record Goose : Type 0 where
  pub dialect_fails : Bool
  pub up_fails : Bool
  pub down_fails : Bool
  pub version : Option ℕ

-- `gooseOnce` with `gooseErr`: what the configuration answered, once it has run.
abbrev pub GooseOnce : Type 0
GooseOnce = Option Bool

unfoldable pub configure_goose : Goose → GooseOnce → Bool × GooseOnce × List GooseAction
configure_goose g none =
    (g.dialect_fails, some g.dialect_fails, set_base_fs ∷ set_logger ∷ set_dialect ∷ [])
configure_goose g (some failed) = (failed, some failed, [])

-- A call after the configuration: its answer where that failed, and otherwise what it asks of goose.
abbrev configured :
    {A : Type 0}
    → GooseAction
    → Result MigrateError A
    → Bool × GooseOnce × List GooseAction
    → Result MigrateError A × GooseOnce × List GooseAction
configured a r (failed, once, log) =
    if failed then (err configure_failed, once, log) else (r, once, log ++ a ∷ [])

unfoldable pub migrate :
    Goose → GooseOnce → Result MigrateError (Unit {0}) × GooseOnce × List GooseAction
unfolding configure_goose
migrate g once =
    configured up_to_last (if g.up_fails then err apply_failed else ok tt) (configure_goose g once)

unfoldable pub migrate_down :
    Goose → GooseOnce → Result MigrateError (Unit {0}) × GooseOnce × List GooseAction
unfolding configure_goose
migrate_down g once =
    configured down_one (if g.down_fails then err roll_back_failed else ok tt)
      (configure_goose g once)

version_read : Option ℕ → Result MigrateError ℕ
version_read none = err read_failed
version_read (some v) = ok v

unfoldable pub migration_version :
    Goose → GooseOnce → Result MigrateError ℕ × GooseOnce × List GooseAction
unfolding configure_goose version_read
migration_version g once = configured get_version (version_read g.version) (configure_goose g once)

-- The calls of one process, in their order.
pub data GooseCall : Type 0 where
  migrates rolls_back asks_version : GooseCall

abbrev effect : {A : Type 0} → A × GooseOnce × List GooseAction → GooseOnce × List GooseAction
effect (r, once, log) = (once, log)

unfoldable pub call_goose : GooseCall → Goose → GooseOnce → GooseOnce × List GooseAction
call_goose migrates g once = effect (migrate g once)
call_goose rolls_back g once = effect (migrate_down g once)
call_goose asks_version g once = effect (migration_version g once)

unfoldable pub goose_log : List (GooseCall × Goose) → GooseOnce → List GooseAction
unfolding call_goose
goose_log [] once = []
goose_log ((c, g) ∷ cs) once = (call_goose c g once).1 ++ goose_log cs (call_goose c g once).0

abbrev pub asked : GooseCall × Goose → GooseAction
asked (migrates, g) = up_to_last
asked (rolls_back, g) = down_one
asked (asks_version, g) = get_version

configured_call :
    (c : GooseCall) (g : Goose) → call_goose c g (some false) ≡ (some false, asked (c, g) ∷ [])
unfolding call_goose migrate migrate_down migration_version configure_goose
configured_call migrates g = refl
configured_call rolls_back g = refl
configured_call asks_version g = refl

refused_call : (c : GooseCall) (g : Goose) → call_goose c g (some true) ≡ (some true, [])
unfolding call_goose migrate migrate_down migration_version configure_goose
refused_call migrates g = refl
refused_call rolls_back g = refl
refused_call asks_version g = refl

goose_log-configured : (cs : List (GooseCall × Goose)) → goose_log cs (some false) ≡ map asked cs
unfolding goose_log
goose_log-configured [] = refl
goose_log-configured ((c, g) ∷ cs) = rw (configured_call c g, goose_log-configured cs) refl

goose_log-refused : (cs : List (GooseCall × Goose)) → goose_log cs (some true) ≡ []
unfolding goose_log
goose_log-refused [] = refl
goose_log-refused ((c, g) ∷ cs) = rw (refused_call c g, goose_log-refused cs) refl

first_call :
    (c : GooseCall) (g : Goose)
    → call_goose c g none ≡ (
      some g.dialect_fails,
      set_base_fs ∷ set_logger ∷ set_dialect ∷ (if g.dialect_fails then [] else asked (c, g) ∷ []),
    )
unfolding call_goose migrate migrate_down migration_version configure_goose
first_call migrates g = ground arith
first_call rolls_back g = ground arith
first_call asks_version g = ground arith

-- Over all the calls of a process goose is configured once, before anything is asked of it; if its
-- dialect was accepted then, every call reaches it, and otherwise none does.
pub configured_once :
    (c : GooseCall) (g : Goose) (cs : List (GooseCall × Goose))
    → goose_log ((c, g) ∷ cs) none
      ≡ set_base_fs
        ∷ set_logger
        ∷ set_dialect
        ∷ (if g.dialect_fails then [] else map asked ((c, g) ∷ cs))
unfolding goose_log
configured_once c g cs = elim (Bool-cases g.dialect_fails) [
  | inl bad ↦ rw (first_call c g, bad, goose_log-refused cs) refl
  | inr good ↦ rw (first_call c g, good, goose_log-configured cs) refl
]
