-- ===== src/Utils/Upper.antt =====
-- strings.ToUpper, by which the drivers of shared file systems read the protocol of their flags. A letter
-- beyond ASCII is left as it is here; no protocol has one.
use Prim.Native.Char.{Char, code}
use huaweicloud_csi_driver.Prelude.{ℕ, zero, suc, ◌-◌, ◌≡◌, refl, String, ◌&&◌, leb, if◌then◌else◌}

-- The letter at a place, or another character where there is none.
unfoldable nth_letter : String → ℕ → Char → Char
nth_letter String.[] n other = other
nth_letter (String.◌∷◌ c s) zero other = c
nth_letter (String.◌∷◌ c s) (suc n) other = nth_letter s n other

unfoldable upper_char : Char → Char
unfolding nth_letter
upper_char c =
    if leb b'a' (code c) && leb (code c) b'z'
    then nth_letter "ABCDEFGHIJKLMNOPQRSTUVWXYZ" (code c - 97) c
    else c

unfoldable pub to_upper : String → String
unfolding upper_char
to_upper String.[] = String.[]
to_upper (String.◌∷◌ c s) = String.◌∷◌ (upper_char c) (to_upper s)

nfs : to_upper "nfs-v3" ≡ "NFS-V3"
unfolding to_upper
nfs = refl
