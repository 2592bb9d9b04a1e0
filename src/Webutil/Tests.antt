-- ===== src/Webutil/Tests.antt =====
-- The codec of webutil.cpp on a few characters.
use c64iec.Base.{ℕ, ◌≡◌, All, IsByte, refl, Bool, some, List, [], ◌∷◌, arith, leb, ◌&&◌}
use c64iec.Webutil.{url_decode, url_encode}
use c64iec.Webutil.Codec.{url_decode-url_encode}

abbrev text : List ℕ
text = b'a' ∷ b'!' ∷ b'B' ∷ b' ' ∷ 255 ∷ []

text-IsByte : All IsByte text
text-IsByte = (omega arith, (omega arith, (omega arith, (omega arith, (omega arith, tt)))))

-- isalnum for the lower-case letters alone.
abbrev lower : ℕ → Bool
lower c = leb b'a' c && leb c b'z'

url_decode-url_encode_example : url_decode (url_encode lower text) ≡ some text
url_decode-url_encode_example = url_decode-url_encode lower refl refl text text-IsByte
