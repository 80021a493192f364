-- ===== src/RepairOnce/Sessions.antt =====
-- The session of the script: how the server is left.
use isabelle_repl.Base.{
  none, ◌≡◌, ◌≢◌, refl, String, Bool, true, false, Option, Outcome, return, raise, out_of_fuel,
  Attempt, returned, raised, finally, throw, and_then, ◌>>=◌, List,
}
use isabelle_repl.Policy.{PolicyConfig}
use isabelle_repl.Policy.Loader.Files.{load_policy_config}
use isabelle_repl.Client.{Stub, destroy_session}
use isabelle_repl.RepairOnce.{
  Arguments, Host, Paths, take, working_dir_of, session_roots_of, repair_in_session, with_config,
  new_session, with_theory, check_theory, main,
}

module _ {W : Type 0} (stub : Stub W) (host : Host) (args : Arguments) where
  -- The script comes to create a session: all its paths can be resolved, the theory's file is there,
  -- and the policy's configuration is accepted.
  pub record IsReady (paths : Paths) (config : PolicyConfig) : Type 0 where
    pub theory_file : host.resolve args.theory_file ≡ returned paths.theory_file
    pub is_file : host.is_file paths.theory_file ≡ true
    pub working_dir :
        working_dir_of stub host args paths.theory_file args.working_dir
        ≡ returned paths.working_dir
    pub session_roots : session_roots_of stub host args args.dir ≡ returned paths.session_roots
    pub policy : load_policy_config host.config_source args.policy_config ≡ returned config
    pub isa_path : host.resolve args.isa_path ≡ returned paths.isa_path

  -- How the server is left.
  pub data IsLeft (server : W) : W → Type 0 where
    untouched :
        ((paths : Paths) (config : PolicyConfig) → ¬ IsReady paths config) → IsLeft server server
    not_created :
        (paths : Paths) (config : PolicyConfig)
        → IsReady paths config
        → ((session_id : String) → (new_session stub host args paths server).0 ≢ return session_id)
        → IsLeft server (new_session stub host args paths server).1
    destroyed :
        (paths : Paths) (config : PolicyConfig) (session_id : String) (before : W)
        → IsReady paths config
        → (new_session stub host args paths server).0 ≡ return session_id
        → IsLeft server (destroy_session stub session_id before).1

  module _ (server : W) where
    with_config-IsLeft :
        (config : PolicyConfig) (paths : Paths)
        → IsReady paths config
        → IsLeft server (with_config stub host args config paths server).1
    unfolding with_config finally ◌>>=◌
    with_config-IsLeft config paths ready = left (new_session stub host args paths server).0 refl
      where
        left :
            (r : Outcome String)
            → (new_session stub host args paths server).0 ≡ r
            → IsLeft server
                (and_then r
                  (λ session_id.
                    finally
                      (repair_in_session stub host args paths config session_id)
                      (destroy_session stub session_id))
                  (new_session stub host args paths server).1).1
        left (return session_id) e = destroyed paths config session_id _ ready e
        left (raise x) e = not_created paths config ready (λ session_id h. cc (e, h))
        left out_of_fuel e = not_created paths config ready (λ session_id h. cc (e, h))

    -- The last of the paths, the one of Isabelle.
    at_isa :
        (paths : Paths) (config : PolicyConfig) (isa : Attempt String)
        → host.resolve args.isa_path ≡ isa
        → host.resolve args.theory_file ≡ returned paths.theory_file
        → host.is_file paths.theory_file ≡ true
        → working_dir_of stub host args paths.theory_file args.working_dir
          ≡ returned paths.working_dir
        → session_roots_of stub host args args.dir ≡ returned paths.session_roots
        → load_policy_config host.config_source args.policy_config ≡ returned config
        → IsLeft server
            ((take isa >>= λ isa_path.
                with_config stub host args config (record paths { isa_path = isa_path }))
              server).1
    unfolding ◌>>=◌
    at_isa paths config (returned isa_path) e file there dir roots policy =
        with_config-IsLeft config (record paths { isa_path = isa_path })
          (record {
            theory_file = file;
            is_file = there;
            working_dir = dir;
            session_roots = roots;
            policy = policy;
            isa_path = e;
          })
    at_isa paths config (raised x) e file there dir roots policy =
        untouched (λ p c ready. cc (ready.isa_path, e))

    at_config :
        (paths : Paths) (config : Attempt PolicyConfig)
        → load_policy_config host.config_source args.policy_config ≡ config
        → host.resolve args.theory_file ≡ returned paths.theory_file
        → host.is_file paths.theory_file ≡ true
        → working_dir_of stub host args paths.theory_file args.working_dir
          ≡ returned paths.working_dir
        → session_roots_of stub host args args.dir ≡ returned paths.session_roots
        → IsLeft server
            ((take config >>= λ config. take (host.resolve args.isa_path) >>= λ isa_path.
                with_config stub host args config (record paths { isa_path = isa_path }))
              server).1
    unfolding ◌>>=◌
    at_config paths (returned config) e file there dir roots =
        at_isa paths config (host.resolve args.isa_path) refl file there dir roots e
    at_config paths (raised x) e file there dir roots =
        untouched (λ p c ready. cc (ready.policy, e))

    at_roots :
        (paths : Paths) (roots : Attempt (Option (List String)))
        → session_roots_of stub host args args.dir ≡ roots
        → host.resolve args.theory_file ≡ returned paths.theory_file
        → host.is_file paths.theory_file ≡ true
        → working_dir_of stub host args paths.theory_file args.working_dir
          ≡ returned paths.working_dir
        → IsLeft server
            ((take roots >>= λ roots.
                take (load_policy_config host.config_source args.policy_config) >>= λ config.
                take (host.resolve args.isa_path) >>= λ isa_path.
                with_config stub host args config
                  (record paths { session_roots = roots; isa_path = isa_path }))
              server).1
    unfolding ◌>>=◌
    at_roots paths (returned roots) e file there dir =
        at_config (record paths { session_roots = roots })
          (load_policy_config host.config_source args.policy_config) refl file there dir e
    at_roots paths (raised x) e file there dir =
        untouched (λ p c ready. cc (ready.session_roots, e))

    at_dir :
        (theory_file : String) (dir : Attempt String)
        → working_dir_of stub host args theory_file args.working_dir ≡ dir
        → host.resolve args.theory_file ≡ returned theory_file
        → host.is_file theory_file ≡ true
        → IsLeft server (with_theory stub host args theory_file server).1
    unfolding with_theory ◌>>=◌
    at_dir theory_file (returned working_dir) e file there = rw e (
        at_roots
          (record {
            theory_file = theory_file;
            working_dir = working_dir;
            session_roots = none;
            isa_path = "";
          })
          (session_roots_of stub host args args.dir) refl file there e)
    at_dir theory_file (raised x) e file there =
        rw e (untouched (λ p c ready. cc (ready.theory_file, ready.working_dir, e, file)))

    at_file :
        (theory_file : String) (there : Bool)
        → host.is_file theory_file ≡ there
        → host.resolve args.theory_file ≡ returned theory_file
        → IsLeft server (check_theory stub host args theory_file server).1
    unfolding check_theory throw
    at_file theory_file true e file = rw e (at_dir theory_file _ refl file e)
    at_file theory_file false e file =
        rw e (untouched (λ p c ready. cc (ready.theory_file, ready.is_file, e, file)))

    at_theory :
        (resolved : Attempt String)
        → host.resolve args.theory_file ≡ resolved
        → IsLeft server ((take resolved >>= check_theory stub host args) server).1
    unfolding ◌>>=◌
    at_theory (returned theory_file) e = at_file theory_file _ refl e
    at_theory (raised x) e = untouched (λ p c ready. cc (ready.theory_file, e))

    -- How the script leaves the server: as it was, if a path cannot be resolved, the theory's file is
    -- missing or the policy's configuration is refused; else as the failed attempt to create a
    -- session left it; or, where a session is created, as a call that destroys this session left it,
    -- however the run in it ended.
    pub main-IsLeft : IsLeft server (main stub host args server).1
    unfolding main
    main-IsLeft = at_theory (host.resolve args.theory_file) refl
