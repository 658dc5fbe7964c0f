-- ===== src/DictObject/Tests.antt =====
-- Runs of objects/dictobject.c with numbers as keys, each its own hash.
use cobj.DictObject.{del_item}
use cobj.Prelude.Result.{undefined}
use cobj.Prelude.{ℕ, ◌≡◌, refl, List, [], ◌∷◌, none, some}
use cobj.Prelude.Result.{Result, ok, ◌>>=◌}
use cobj.DictObject.{DictObject, new_dict, set_item, get_item, bit_and, rehash_loop}
use cobj.DictObject.{dict_rehash, dict_do_resize, lookup_loop, lookup_hash, dict_lookup}
use cobj.DictObject.{link_bucket, resize_if_full, dict_insert, item_at, store_item}
use cobj.DictObject.{replace_or_insert}
use cobj.DictObject.Delete.{del_item-get_item}
use cobj.DictObject.SetGet.{IsValid, new_dict-IsValid, set_item-get_item}
use cobj.Hashing.Numbers.{numbers, numbers-IsLawful}

set_item-get_item_example :
    (d' : DictObject ℕ ℕ) × (set_item numbers (new_dict ℕ ℕ) 4 40 ≡ ok d')
    × IsValid d'
    × (get_item numbers d' 4 ≡ ok (some 40))
set_item-get_item_example =
    set_item-get_item numbers numbers-IsLawful (new_dict ℕ ℕ) 4 40 4 (new_dict-IsValid ℕ ℕ) refl

-- Each of the keys set to itself, in turn.
set_all : DictObject ℕ ℕ → List ℕ → Result (DictObject ℕ ℕ)
set_all d [] = ok d
set_all d (k ∷ ks) = set_item numbers d k k >>= λ d'. set_all d' ks

-- The ninth insertion resizes the table to 15 entries, whose mask is 14: the key 1 now shares the
-- entry of 0, that was written over, and the bucket of 0 is in no chain that is searched.
lost_after_resize :
    (set_all (new_dict ℕ ℕ) (0 ∷ 1 ∷ 2 ∷ 3 ∷ 4 ∷ 5 ∷ 6 ∷ 7 ∷ 8 ∷ []) >>= λ d. get_item numbers d 0)
    ≡ ok none
unfolding set_all set_item get_item bit_and rehash_loop dict_rehash dict_do_resize lookup_loop
    lookup_hash dict_lookup link_bucket resize_if_full dict_insert item_at store_item
    replace_or_insert new_dict
lost_after_resize = refl

-- A dictionary with the item 40 under the key 4.
abbrev one_item : DictObject ℕ ℕ
one_item = link_bucket numbers (new_dict ℕ ℕ) 4 40 4

one_item_found : lookup_hash numbers one_item 4 4 ≡ ok (some 0)
unfolding lookup_hash lookup_loop link_bucket new_dict bit_and
one_item_found = refl

del_item-get_item_example :
    (d' : DictObject ℕ ℕ) × (del_item numbers one_item 4 ≡ ok (some d'))
    × (get_item numbers d' 4 ≡ undefined)
del_item-get_item_example = del_item-get_item numbers one_item 4 4 0 refl one_item_found
