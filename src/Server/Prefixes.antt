-- ===== src/Server/Prefixes.antt =====
-- Reflector.cpp: two prefix lists are compared in sorted order. `std::sort` on texts is given by
-- insertion in the order of `std::string`, which compares bytes from the left.
use geu_reflector.Base.{
  Bool, true, false, ◌&&◌, List, [], ◌∷◌, Bytes, bytes_eq, ltb, ◌==◌, if◌then◌else◌,
}

-- `operator<`
unfoldable pub bytes_less : Bytes → Bytes → Bool
bytes_less [] [] = false
bytes_less [] (y ∷ t) = true
bytes_less (x ∷ s) [] = false
bytes_less (x ∷ s) (y ∷ t) =
    let rest = bytes_less s t in if ltb x y then true else if x == y then rest else false

unfoldable pub insert_sorted : Bytes → List Bytes → List Bytes
insert_sorted p [] = p ∷ []
insert_sorted p (q ∷ qs) =
    let rest = insert_sorted p qs in if bytes_less q p then q ∷ rest else p ∷ q ∷ qs

unfoldable pub sort : List Bytes → List Bytes
sort [] = []
sort (p ∷ ps) = insert_sorted p (sort ps)

-- `operator==` on vectors of texts
unfoldable pub list_eq : List Bytes → List Bytes → Bool
list_eq [] [] = true
list_eq [] (q ∷ qs) = false
list_eq (p ∷ ps) [] = false
list_eq (p ∷ ps) (q ∷ qs) = bytes_eq p q && list_eq ps qs

unfoldable pub same_prefixes : List Bytes → List Bytes → Bool
same_prefixes expected peer = list_eq (sort expected) (sort peer)
