-- ===== src/Policy/Loader/Files.antt =====
-- `load_policy_config` of python/src/isabelle_repair/policy/config_loader.py, with the messages of its
-- errors. Paths, the file's text and `tomllib.loads` come from outside.
use isabelle_repl.Base.{
  ◌∙◌, ◌≡◌, ◌⊎◌, inl, inr, refl, sym, ap, String, ◌<>◌, Option, none, some, [], ◌∷◌, map, join,
  Exception, value_error, Attempt, returned, raised,
}
use isabelle_repl.Model.{
  proof_body_failure, statement_failure, non_proof_command_failure, theory_load_or_header_failure,
  failure_kind_value, action_permission, artifact_acceptance, continuation_gating, scope_value,
}
use isabelle_repl.Policy.Config.{PolicyConfig}
use isabelle_repl.Policy.Loader.{
  TomlFields, LoadError, missing_table, not_strings, not_text, no_failure_kinds, repeated_rule_ids,
  invalid_failure_kind, invalid_scope, invalid_mode, Loaded, ok, err, parse_policy_config,
}

-- `read_text`: the text, FileNotFoundError, or another exception.
pub data FileText : Type 0 where
  content : String → FileText
  not_found : FileText
  unreadable : Exception → FileText

-- `tomllib.loads`: the document, or TOMLDecodeError with its text.
pub data TomlText : Type 0 where
  document : TomlFields → TomlText
  decode_error : String → TomlText

-- What the method takes from outside: `DEFAULT_POLICY_CONFIG_PATH`, `expanduser().resolve()`, which
-- may raise, the files, the TOML parser and the `repr` of a text.
pub record ConfigSource : Type 0 where
  pub default_path : String
  pub resolve : String → Attempt String
  pub read_text : String → FileText
  pub loads : String → TomlText
  pub repr : String → String

abbrev allowed_failure_kinds : String
allowed_failure_kinds = join ", " (
    map failure_kind_value (
      proof_body_failure ∷ statement_failure ∷ non_proof_command_failure
      ∷ theory_load_or_header_failure ∷ []))

abbrev allowed_scopes : String
allowed_scopes =
    join ", " (map scope_value (action_permission ∷ artifact_acceptance ∷ continuation_gating ∷ []))

-- The rest of the message of a ValueError, after the location.
abbrev pub load_error_text : (String → String) → LoadError → String
load_error_text repr (missing_table key) = ": missing or invalid [" <> (key <> "] table")
load_error_text repr (not_strings key) = ": " <> (key <> " must be a list of strings")
load_error_text repr (not_text key) = ": " <> (key <> " must be a non-empty string")
load_error_text repr no_failure_kinds = ": policy.high_risk_failure_kinds cannot be empty"
load_error_text repr repeated_rule_ids = ": rule_ids values must be unique"
load_error_text repr (invalid_failure_kind value) =
    ": policy.high_risk_failure_kinds contains invalid value: "
    <> (repr value <> (". Allowed: " <> allowed_failure_kinds))
load_error_text repr (invalid_scope value) =
    ": policy.default_scope is invalid: " <> (repr value <> (". Allowed: " <> allowed_scopes))
load_error_text repr (invalid_mode value) =
    ": placeholder.mode is invalid: "
    <> (repr value <> (". Allowed: " <> "allow, deny, requires_review"))

module _ (source : ConfigSource) where
  abbrev pub loaded_config : String → Loaded PolicyConfig → Attempt PolicyConfig
  loaded_config resolved (ok config) = returned config
  loaded_config resolved (err e) = raised (value_error (resolved <> load_error_text source.repr e))

  abbrev pub parsed_config : String → TomlText → Attempt PolicyConfig
  parsed_config resolved (document raw) = loaded_config resolved (parse_policy_config raw)
  parsed_config resolved (decode_error text) =
      raised (value_error ("Invalid TOML policy config at " <> (resolved <> (": " <> text))))

  abbrev pub read_config : String → FileText → Attempt PolicyConfig
  read_config resolved (content text) = parsed_config resolved (source.loads text)
  read_config resolved not_found = raised (value_error ("Policy config not found: " <> resolved))
  read_config resolved (unreadable e) = raised e

  abbrev pub resolved_path : Option String → Attempt String
  resolved_path none = source.resolve source.default_path
  resolved_path (some path) = source.resolve path

  abbrev pub at_path : Attempt String → Attempt PolicyConfig
  at_path (raised e) = raised e
  at_path (returned resolved) = read_config resolved (source.read_text resolved)

  unfoldable pub load_policy_config : Option String → Attempt PolicyConfig
  load_policy_config path = at_path (resolved_path path)

abbrev error_of : Attempt PolicyConfig → Exception
error_of (returned c) = value_error ""
error_of (raised e) = e

module _ (source : ConfigSource) (path : Option String) where
  -- Loading a configuration fails with a ValueError, with the exception that resolving the path
  -- raised, or with the exception that reading the resolved file raised, other than that it is not
  -- there.
  pub load_policy_config-raised :
      (e : Exception)
      → load_policy_config source path ≡ raised e
      → ((message : String) × (e ≡ value_error message))
        ⊎ (resolved_path source path ≡ raised e)
        ⊎ ((resolved : String) × (resolved_path source path ≡ returned resolved)
            × (source.read_text resolved ≡ unreadable e))
  unfolding load_policy_config
  load_policy_config-raised e h = of_path (resolved_path source path) refl h
    where
      of_loaded :
          (resolved : String) (loaded : Loaded PolicyConfig)
          → loaded_config source resolved loaded ≡ raised e
          → (message : String) × (e ≡ value_error message)
      of_loaded resolved (ok c) same = cc
      of_loaded resolved (err x) same = (_, sym (ap error_of same))

      of_document :
          (resolved : String) (doc : TomlText)
          → parsed_config source resolved doc ≡ raised e
          → (message : String) × (e ≡ value_error message)
      of_document resolved (document raw) same = of_loaded resolved (parse_policy_config raw) same
      of_document resolved (decode_error text) same = (_, sym (ap error_of same))

      of_text :
          (resolved : String) (read : FileText)
          → read_config source resolved read ≡ raised e
          → ((message : String) × (e ≡ value_error message)) ⊎ (read ≡ unreadable e)
      of_text resolved (content text) same = inl (of_document resolved (source.loads text) same)
      of_text resolved not_found same = inl (_, sym (ap error_of same))
      of_text resolved (unreadable x) same = inr (ap unreadable (ap error_of same))

      of_path :
          (resolved : Attempt String)
          → resolved_path source path ≡ resolved
          → at_path source resolved ≡ raised e
          → ((message : String) × (e ≡ value_error message))
            ⊎ (resolved_path source path ≡ raised e)
            ⊎ ((resolved : String) × (resolved_path source path ≡ returned resolved)
                × (source.read_text resolved ≡ unreadable e))
      of_path (raised x) p same = inr (inl (p ∙ ap raised (ap error_of same)))
      of_path (returned resolved) p same =
          elim (of_text resolved (source.read_text resolved) same) [
            | inl value ↦ inl value
            | inr reading ↦ inr (inr (resolved, p, reading))
          ]
