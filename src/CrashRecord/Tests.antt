-- ===== src/CrashRecord/Tests.antt =====
-- Names of exceptions as MSVC writes them.
use centroid_x.CrashRecord.Bounds.{clean_type_name-le}
use centroid_x.Common.{◌+◌, ◌<◌, ◌≤◌, length, ◌≡◌, refl, inl, [], ◌∷◌, ◌++◌, none, some, arith}
use centroid_x.CString.{codes}
use centroid_x.CrashRecord.{
  body_of, scopes_of, has_question_mark, last_part, append_part, append_parts, clean_type_name,
}
use centroid_x.CrashRecord.RoundTrip.{spells, mangled, scoped, clean_type_name-mangled}

bad_alloc : clean_type_name 64 (some (codes ".?AVbad_alloc@std@@")) ≡ some (codes "std::bad_alloc")
unfolding clean_type_name body_of scopes_of has_question_mark append_parts last_part append_part
bad_alloc = refl

-- An empty scope is refused, but not the innermost.
empty-scope : clean_type_name 64 (some (codes ".?AVa@@b@@")) ≡ none
unfolding clean_type_name body_of scopes_of has_question_mark append_parts last_part append_part
empty-scope = refl

empty-name : clean_type_name 64 (some (codes ".?AV@std@@")) ≡ some (codes "std")
unfolding clean_type_name body_of scopes_of has_question_mark append_parts last_part append_part
empty-name = refl

clean_type_name-mangled_example :
    clean_type_name 64 (
      some (codes ".?A" ++ (b'V' ∷ (mangled (codes "std") (codes "bad_alloc" ∷ []) ++ codes "@@"))))
    ≡ some (scoped (codes "std") (codes "bad_alloc" ∷ []))
unfolding spells scoped
clean_type_name-mangled_example =
    clean_type_name-mangled 64 b'V' (codes "std") (codes "bad_alloc" ∷ []) (inl refl)
      ((refl, refl), ((refl, refl), tt)) (omega arith)

clean_type_name-le_example :
    (0 < length (codes "std::bad_alloc")) × (length (codes "std::bad_alloc") + 1 ≤ 64)
clean_type_name-le_example =
    clean_type_name-le 64 (some (codes ".?AVbad_alloc@std@@")) (codes "std::bad_alloc") bad_alloc
