-- ===== src/Registry/Sinks.antt =====
-- The sinks of `RuntimeRegistry`.
use ptf.Prelude.{String, Bool, ◌==◌, Option, none, some, [], ◌∷◌, ◌++◌, not}
use ptf.Prelude.Table.{find_where, exists_where}
use ptf.Core.Errors.{Result, ok, err, require, registration_error, ◌>>=◌, ◌>>◌}
use ptf.Registry.Workloads.{RuntimeRegistry, required}

module _ {S : Type 0} where
  abbrev pub has_name : String → String × S → Bool
  has_name name entry = entry.0 == name

  abbrev found_sink : Option (String × S) → Result S
  found_sink none = err (registration_error "unknown sink")
  found_sink (some entry) = ok entry.1

  module _ {P H W : Type 0} where
    unfoldable pub register_sink :
        String → S → RuntimeRegistry P H W S → Result (RuntimeRegistry P H W S)
    register_sink name s r = do
      sink_name ← required name
      require (not (exists_where (has_name sink_name) r.sinks))
          (registration_error "sink already registered")
      ok (record r { sinks = r.sinks ++ (sink_name, s) ∷ [] })

    unfoldable pub sink : String → RuntimeRegistry P H W S → Result S
    sink name r = found_sink (find_where (has_name name) r.sinks)
