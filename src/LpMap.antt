-- ===== src/LpMap.antt =====
-- lib/jrnl/lp_map.hpp and lp_map.cpp: the map from logical to physical file numbers.
use qpid_cpp_store_debian.Prelude.{ℕ, List, map, if◌then◌else◌}
use qpid_cpp_store_debian.Prelude.Control.{M, ok, throw, jerr_map_duplicate}
use qpid_cpp_store_debian.Prelude.StdMap
use qpid_cpp_store_debian.Prelude.StdMap.{nat_key}

abbrev pub LpMap : Type 0
LpMap = List (ℕ × ℕ)

unfoldable pub insert : ℕ → ℕ → M LpMap (Unit {0})
unfolding StdMap.insert
insert lfid pfid m =
    let (m', second) = StdMap.insert lfid pfid m in
    if second then (ok tt, m') else (throw jerr_map_duplicate, m')

-- Appended to an empty vector.
unfoldable pub get_pfid_list : LpMap → List ℕ
get_pfid_list m = map (λ e. e.1) m
