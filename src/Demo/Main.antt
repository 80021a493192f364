-- ===== src/Demo/Main.antt =====
-- `main` of python/examples/proof_repair_demo.py.
use isabelle_repl.Base.{
  int_eq, String, truthy, Bool, false, string_eq, Option, none, some, List, [], ◌∷◌, map, Action,
  returned, pure, ◌>>=◌, ◌>>◌, if◌then◌else◌,
}
use isabelle_repl.Client.{Stub, create_session, destroy_session}
use isabelle_repl.Demo.{RepairHook, Repairs, execute_and_repair}

-- The arguments of `main`, and what it takes from outside: the file system and the variable ISA_PATH.
pub record DemoArguments : Type 0 where
  pub theory_file : String
  pub isa_path : Option String
  pub logic : String
  pub dir : Option (List String)
  pub working_dir : Option String

pub record DemoHost : Type 0 where
  pub is_file : String → Bool
  pub resolve : String → String
  pub parent : String → String
  pub isa_path_variable : Option String

-- How `main` ends: with a message and exit code 1, or with exit code 0.
pub data DemoEnd : Type 0 where
  no_theory_file : DemoEnd
  no_isa_path : DemoEnd
  ended : Option Repairs → DemoEnd

module _ (host : DemoHost) where
  -- `args.isa_path or os.getenv("ISA_PATH")`, if it is not empty
  abbrev pub non_empty : Option String → Option String
  non_empty none = none
  non_empty (some path) = if truthy path then some path else none

  abbrev pub demo_isa_path : Option String → Option String
  demo_isa_path none = non_empty host.isa_path_variable
  demo_isa_path (some path) = some path

  abbrev pub demo_roots : Option (List String) → Option (List String)
  demo_roots none = none
  demo_roots (some []) = none
  demo_roots (some (dir ∷ dirs)) = some (map host.resolve (dir ∷ dirs))

  abbrev pub demo_working_dir : String → Option String → String
  demo_working_dir theory_file none = host.parent theory_file
  demo_working_dir theory_file (some dir) = dir

module _ {W : Type 0} (stub : Stub W) (host : DemoHost) (args : DemoArguments) where
  -- The hook of `main` always answers the same.
  abbrev pub simp_hook : RepairHook W
  simp_hook call w = (returned "by simp", w)

  abbrev pub demo_file : String
  demo_file = host.resolve args.theory_file

  abbrev pub demo_session : String → Action W DemoEnd
  demo_session isa_path = do
    session_id ←
        create_session stub isa_path args.logic (demo_working_dir host demo_file args.working_dir)
          (demo_roots host args.dir)
    end ← execute_and_repair stub simp_hook demo_file 30000 session_id 3 false
    destroy_session stub session_id
    pure (ended end)

  abbrev pub with_isa_path : Option String → Action W DemoEnd
  with_isa_path none = pure no_isa_path
  with_isa_path (some isa_path) = demo_session isa_path

  unfoldable pub demo_main : Action W DemoEnd
  demo_main =
      if host.is_file args.theory_file
      then with_isa_path (demo_isa_path host args.isa_path)
      else pure no_theory_file
