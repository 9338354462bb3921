-- ===== src/Utils/Objects.antt =====
-- pkg/utils/util.go: GetObjectFromUnstructured, with the type assertion, the text of an object and the
-- converter of the library as parameters.
use di_orchestrator.Base.{Option, none, some, ◌++◌, ◌⊎◌, inl}
use di_orchestrator.Text.{Text, codes}
use di_orchestrator.Machine.{Error, failure}

-- What is done with the content of the object, `none` if it is no unstructured object.
abbrev converted : {C D : Type 0} → Text → (C → D → Error ⊎ D) → Option C → D → Error ⊎ D
converted text from_unstructured none dest =
    inl (failure (codes "the object " ++ text ++ codes " is not unstructured"))
converted text from_unstructured (some content) dest = from_unstructured content dest

-- GetObjectFromUnstructured
unfoldable pub get_object_from_unstructured :
    {O C D : Type 0} → (O → Option C) → (O → Text) → (C → D → Error ⊎ D) → O → D → Error ⊎ D
get_object_from_unstructured unstructured text from_unstructured obj dest =
    converted (text obj) from_unstructured (unstructured obj) dest
