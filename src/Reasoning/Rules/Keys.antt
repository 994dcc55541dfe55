-- ===== src/Reasoning/Rules/Keys.antt =====
-- The order of sort keys is total.
use deductra.Common.{
  ◌≡◌, refl, ap, true, false, List, [], ◌∷◌, arith, text_le_refl, text_le_total, text_le_antisymm,
  text_le_trans,
}
use deductra.Common.Int.{pos, negsuc}
use deductra.Reasoning.Rules.{KeyPart, amount, word, part_le, key_le}

pub part_le_refl : (k : KeyPart) → part_le k k ≡ true
part_le_refl (amount n) = ground arith
part_le_refl (word s) = text_le_refl s

part_le_total : (j k : KeyPart) → part_le j k ≡ false → part_le k j ≡ true
part_le_total (amount m) (amount n) h = ground arith
part_le_total (amount m) (word t) h = cc
part_le_total (word s) (amount n) h = refl
part_le_total (word s) (word t) h = text_le_total s t h

part_le_trans : (i j k : KeyPart) → part_le i j ≡ true → part_le j k ≡ true → part_le i k ≡ true
part_le_trans (amount l) (amount m) (amount n) h g = ground arith
part_le_trans (amount l) j (word t) h g = refl
part_le_trans (amount l) (word s) (amount n) h g = cc
part_le_trans (word r) (amount m) k h g = cc
part_le_trans (word r) (word s) (amount n) h g = cc
part_le_trans (word r) (word s) (word t) h g = text_le_trans r s t h g

pub part_le_antisymm : (j k : KeyPart) → part_le j k ≡ true → part_le k j ≡ true → j ≡ k
part_le_antisymm (amount (pos m)) (amount (pos n)) h g = ground arith
part_le_antisymm (amount (pos m)) (amount (negsuc n)) h g = ground arith
part_le_antisymm (amount (negsuc m)) (amount (pos n)) h g = ground arith
part_le_antisymm (amount (negsuc m)) (amount (negsuc n)) h g = ground arith
part_le_antisymm (amount m) (word t) h g = cc
part_le_antisymm (word s) (amount n) h g = cc
part_le_antisymm (word s) (word t) h g = ap word (text_le_antisymm s t h g)

pub key_le_refl : (ks : List KeyPart) → key_le ks ks ≡ true
unfolding key_le
key_le_refl [] = refl
key_le_refl (k ∷ ks) = ground (arith, part_le_refl k, key_le_refl ks)

pub key_le_total : (js ks : List KeyPart) → key_le js ks ≡ false → key_le ks js ≡ true
unfolding key_le
key_le_total [] ks h = cc
key_le_total (j ∷ js) [] h = refl
key_le_total (j ∷ js) (k ∷ ks) h = ground (arith, part_le_total j k, key_le_total js ks)

pub key_le_trans :
    (is js ks : List KeyPart) → key_le is js ≡ true → key_le js ks ≡ true → key_le is ks ≡ true
unfolding key_le
key_le_trans [] js ks h g = refl
key_le_trans (i ∷ is) [] ks h g = cc
key_le_trans (i ∷ is) (j ∷ js) [] h g = cc
key_le_trans (i ∷ is) (j ∷ js) (k ∷ ks) h g =
    ground
      (arith, part_le_trans i j k, part_le_trans k i j, part_le_trans j k i, key_le_trans is js ks)

pub key_le_antisymm : (js ks : List KeyPart) → key_le js ks ≡ true → key_le ks js ≡ true → js ≡ ks
unfolding key_le
key_le_antisymm [] [] h g = refl
key_le_antisymm [] (k ∷ ks) h g = cc
key_le_antisymm (j ∷ js) [] h g = cc
key_le_antisymm (j ∷ js) (k ∷ ks) h g = ground (arith, part_le_antisymm j k, key_le_antisymm js ks)
