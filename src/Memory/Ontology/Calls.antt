-- ===== src/Memory/Ontology/Calls.antt =====
-- The writing calls of memory/ontology.py as values, and sequences of them from the empty tables.
use deterministic_cognition.Prelude.{String, List, [], ◌∷◌, Result, ok, err}
use deterministic_cognition.Memory.Ontology.{
  Ontology, OntologyError, NewTerm, register_term, deprecate_term, supersede_term, forbid_term,
  add_alias,
}

pub data Call : Type 0 where
  register : (now : String) → NewTerm → Call
  deprecate : (now vocabulary term actor reason : String) → Call
  supersede : (now vocabulary term replacement actor reason : String) → Call
  forbid : (now vocabulary term actor reason : String) → Call
  alias : (now vocabulary term alias actor reason : String) → Call

-- the tables that a call leaves
abbrev pub kept : {A : Type 0} → Ontology → Result OntologyError (Ontology × A) → Ontology
kept s (ok (t, a)) = t
kept s (err e) = s

unfoldable pub perform : Call → Ontology → Ontology
perform (Call.register now n) s = kept s (register_term now n s)
perform (Call.deprecate now v x actor reason) s = kept s (deprecate_term now v x actor reason s)
perform (Call.supersede now v x y actor reason) s = kept s (supersede_term now v x y actor reason s)
perform (Call.forbid now v x actor reason) s = kept s (forbid_term now v x actor reason s)
perform (Call.alias now v x a actor reason) s = kept s (add_alias now v x a actor reason s)

unfoldable pub perform_all : List Call → Ontology → Ontology
perform_all [] s = s
perform_all (c ∷ cs) s = perform_all cs (perform c s)

abbrev pub empty_tables : Ontology
empty_tables = record { terms = []; aliases = []; next_term = 1; next_alias = 1 }
