-- ===== src/Tests/Cookies.antt =====
-- Session cookies, in one cookie and in chunks.
use pomerium.Prelude.{
  ℕ, zero, suc, ◌+◌, ◌-◌, Bytes, ◌≡◌, refl, ap, arith, List, [], ◌∷◌, ◌++◌, none, length,
}
use pomerium.Strings.{codes}
use pomerium.Sessions.Cookie.{
  Cookie, chunk, chunk_name, set_cookie, cookie_value, load_chunks, max_chunk_size, max_num_chunks,
}
use pomerium.Sessions.Cookie.Jar.{Loads, put_all, load-set_cookie, load_stale}

abbrev session_name : Bytes
session_name = codes "_pomerium"

-- The length of the cookie's text, with that of its attributes.
abbrev text_length : Cookie → ℕ
text_length c = length c.name + length c.value + 60

abbrev stale : List Cookie
stale = (record { name = codes "_pomerium_2"; value = codes "old" }) ∷ []

no_cookies : (j : ℕ) → cookie_value [] (chunk_name session_name j) ≡ none
unfolding cookie_value
no_cookies j = refl

load-set_cookie_example :
    Loads
      (put_all (set_cookie text_length (record { name = session_name; value = codes "jwt" })) [])
      session_name
      (codes "jwt")
load-set_cookie_example =
    load-set_cookie text_length session_name b'j' (codes "wt") [] refl (omega arith) no_cookies

letters : ℕ → Bytes
letters zero = []
letters (suc n) = b'a' ∷ letters n

length-letters : (n : ℕ) → length (letters n) ≡ n
unfolding letters
length-letters zero = refl
length-letters (suc n) = omega (arith, length-letters n)

load_stale_example :
    Loads
      (put_all
        (set_cookie text_length (record { name = session_name; value = letters 4000 }))
        stale)
      session_name
      (letters 4000
        ++ load_chunks stale session_name
            (length (chunk (letters 4000) max_chunk_size))
            (suc max_num_chunks - length (chunk (letters 4000) max_chunk_size)))
load_stale_example =
    load_stale text_length session_name (letters 4000) stale
      (λ e. omega (arith, ap length e, length-letters 4000)) (omega (arith, length-letters 4000))
      (omega (arith, length-letters 4000))
