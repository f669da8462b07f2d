-- ===== src/Sessions/Cookie/Jar.antt =====
-- Sessions through a browser, which keeps the last cookie of each name.
use pomerium.Prelude.{
  ℕ, zero, suc, ◌+◌, ◌-◌, ◌*◌, ◌≤◌, ◌<◌, ◌≡◌, ◌≢◌, refl, sym, ap, ◌∙◌, Bytes, false, List, [], ◌∷◌,
  ◌++◌, none, some, arith, leb, ◌==◌, length, inl, inr, Bool-cases, if◌then◌else◌,
}
use mathlib.Core.List.{append_assoc, append-nil}
use pomerium.Strings.{bytes_eq}
use pomerium.Strings.Splitting.{bytes_eq_refl, bytes_eq→eq}
use pomerium.Strings.Decimal.{itoa, itoa_injective}
use pomerium.Sessions.Cookie.{
  Cookie, chunked_canary_byte, max_chunk_size, max_num_chunks, chunk, chunk_name, chunk_cookies,
  set_cookie, cookie_value, load_chunks, load_chunked_cookie,
}
use pomerium.Sessions.Cookie.Chunks.{concat, concat-chunk_from, length-chunk_from}

-- A Set-Cookie header replaces the cookie of the same name.
pub put_cookie : Cookie → List Cookie → List Cookie
put_cookie c [] = c ∷ []
put_cookie c (d ∷ jar) =
    let others = put_cookie c jar in if bytes_eq d.name c.name then c ∷ jar else d ∷ others

pub put_all : List Cookie → List Cookie → List Cookie
put_all [] jar = jar
put_all (c ∷ cookies) jar = put_all cookies (put_cookie c jar)

cookie_value-put_cookie :
    (c : Cookie) (jar : List Cookie) (n : Bytes)
    → cookie_value (put_cookie c jar) n
      ≡ (if bytes_eq c.name n then some c.value else cookie_value jar n)
unfolding cookie_value put_cookie
cookie_value-put_cookie c [] n = refl
cookie_value-put_cookie c (d ∷ jar) n = ground (
  arith,
  cookie_value-put_cookie c jar n,
  bytes_eq→eq d.name c.name,
  bytes_eq→eq d.name n,
  bytes_eq→eq c.name n,
  bytes_eq_refl n,
)

bytes_eq-append : (s t u : Bytes) → bytes_eq (s ++ t) (s ++ u) ≡ bytes_eq t u
unfolding bytes_eq
bytes_eq-append [] t u = refl
bytes_eq-append (c ∷ s) t u = ground (arith, bytes_eq-append s t u)

bytes_eq-longer : (s t : Bytes) (c : ℕ) → bytes_eq s (s ++ c ∷ t) ≡ false
unfolding bytes_eq
bytes_eq-longer [] t c = refl
bytes_eq-longer (d ∷ s) t c = ground (arith, bytes_eq-longer s t c)

distinct_chunk_names :
    (name : Bytes) (i j : ℕ) → i ≢ j → bytes_eq (chunk_name name i) (chunk_name name j) ≡ false
unfolding chunk_name bytes_eq
distinct_chunk_names name i j h =
    bytes_eq-append name (b'_' ∷ itoa i) (b'_' ∷ itoa j)
    ∙ ground (
      arith,
      bytes_eq→eq (itoa i) (itoa j),
      itoa_injective i j,
      Bool-cases (bytes_eq (itoa i) (itoa j)),
    )

main_name : (name : Bytes) (j : ℕ) → bytes_eq name (chunk_name name j) ≡ false
unfolding chunk_name
main_name name j = bytes_eq-longer name (itoa j) b'_'

bytes_eq-shorter : (s t : Bytes) (c : ℕ) → bytes_eq (s ++ c ∷ t) s ≡ false
unfolding bytes_eq
bytes_eq-shorter [] t c = refl
bytes_eq-shorter (d ∷ s) t c = ground (arith, bytes_eq-shorter s t c)

chunk_is_other : (name : Bytes) (j : ℕ) → bytes_eq (chunk_name name j) name ≡ false
unfolding chunk_name
chunk_is_other name j = bytes_eq-shorter name (itoa j) b'_'

-- Chunks with larger numbers are not read or written.
load_chunks-put_cookie :
    (name : Bytes) (c : Cookie) (jar : List Cookie) (i n : ℕ)
    → ((j : ℕ) → i ≤ j → bytes_eq c.name (chunk_name name j) ≡ false)
    → load_chunks (put_cookie c jar) name i n ≡ load_chunks jar name i n
unfolding load_chunks
load_chunks-put_cookie name c jar i zero h = refl
load_chunks-put_cookie name c jar i (suc n) h = ground (
  arith,
  cookie_value-put_cookie c jar (chunk_name name i),
  h i,
  load_chunks-put_cookie name c jar (suc i) n (λ j le. h j (omega (arith, le))),
)

cookie_value-chunk_cookies :
    (name : Bytes) (chunks : List Bytes) (jar : List Cookie) (i : ℕ) (n : Bytes)
    → ((j : ℕ) → suc i ≤ j → bytes_eq (chunk_name name j) n ≡ false)
    → cookie_value (put_all (chunk_cookies name (suc i) chunks) jar) n ≡ cookie_value jar n
unfolding chunk_cookies put_all
cookie_value-chunk_cookies name [] jar i n h = refl
cookie_value-chunk_cookies name (c ∷ chunks) jar i n h =
    let e : (suc i == 0) ≡ false = ground arith in
    let first : Cookie = record { name = chunk_name name (suc i); value = c } in
    rw e (
      cookie_value-chunk_cookies name chunks (put_cookie first jar) (suc i) n
        (λ j le. h j (omega (arith, le)))
      ∙ cookie_value-put_cookie first jar n
      ∙ rw (h (suc i) (omega arith)) refl)

-- What the chunks from a number on make up, and what the browser held beyond them.
load_chunks-chunk_cookies :
    (name : Bytes) (chunks : List Bytes) (jar : List Cookie) (i m : ℕ)
    → load_chunks (put_all (chunk_cookies name (suc i) chunks) jar) name (suc i) (length chunks + m)
      ≡ concat chunks ++ load_chunks jar name (suc i + length chunks) m
unfolding chunk_cookies put_all load_chunks
load_chunks-chunk_cookies name [] jar i m =
    let e : 0 + m ≡ m = omega arith in
    let s : suc i ≡ suc i + 0 = omega arith in
    ap (λ k. load_chunks jar name (suc i) k) e ∙ ap (λ k. load_chunks jar name k m) s
load_chunks-chunk_cookies name (c ∷ chunks) jar i m =
    let e : (suc i == 0) ≡ false = ground arith in
    let first : Cookie = record { name = chunk_name name (suc i); value = c } in
    let here : cookie_value
          (put_all (chunk_cookies name (suc (suc i)) chunks) (put_cookie first jar))
          (chunk_name name (suc i))
        ≡ some c =
      cookie_value-chunk_cookies name chunks (put_cookie first jar) (suc i)
        (chunk_name name (suc i))
        (λ j le. distinct_chunk_names name j (suc i) (λ q. omega (arith, le, q)))
      ∙ cookie_value-put_cookie first jar (chunk_name name (suc i))
      ∙ rw (bytes_eq_refl (chunk_name name (suc i))) refl in
    let beyond : load_chunks (put_cookie first jar) name (suc (suc i) + length chunks) m
        ≡ load_chunks jar name (suc (suc i) + length chunks) m =
      load_chunks-put_cookie name first jar (suc (suc i) + length chunks) m
        (λ j le. distinct_chunk_names name (suc i) j (λ q. omega (arith, le, q))) in
    let sum : suc (length chunks) + m ≡ suc (length chunks + m) = omega arith in
    let last : suc i + suc (length chunks) ≡ suc (suc i) + length chunks = omega arith in
    rw (e, sum, last)
      (rw (here, load_chunks)
        (ap (λ t. c ++ t)
            (load_chunks-chunk_cookies name chunks (put_cookie first jar) (suc i) m
              ∙ ap (λ t. concat chunks ++ t) beyond)
          ∙ sym (append_assoc c (concat chunks) _)))

-- The text of a chunked session, from its first cookie and the browser's others.
load-first_chunk :
    (name c : Bytes) (rest : List Bytes) (jar : List Cookie)
    → length rest ≤ max_num_chunks
    → let jar' = put_all (chunk_cookies name 0 (c ∷ rest)) jar in
      (cookie_value jar' name ≡ some (chunked_canary_byte ∷ c))
      × (load_chunked_cookie jar' name (chunked_canary_byte ∷ c)
          ≡ concat (c ∷ rest)
            ++ load_chunks jar name (suc (length rest)) (max_num_chunks - length rest))
unfolding chunk_cookies put_all load_chunked_cookie
load-first_chunk name c rest jar h =
    let main : Cookie = record { name = name; value = chunked_canary_byte ∷ c } in
    let rounds : length rest + (max_num_chunks - length rest) ≡ max_num_chunks = omega (arith, h) in
    let from : suc 0 + length rest ≡ suc (length rest) = omega arith in
    let read =
      load_chunks-chunk_cookies name rest (put_cookie main jar) 0 (max_num_chunks - length rest) in
    (
      cookie_value-chunk_cookies name rest (put_cookie main jar) 0 name
            (λ j le. chunk_is_other name j)
          ∙ cookie_value-put_cookie main jar name
          ∙ rw (bytes_eq_refl name) refl,
      ap (λ t. c ++ t)
            (ap (load_chunks (put_all (chunk_cookies name 1 rest) (put_cookie main jar)) name 1)
                (sym rounds)
              ∙ read
              ∙ ap (λ t. concat rest ++ t)
                  (load_chunks-put_cookie name main jar (suc 0 + length rest)
                      (max_num_chunks - length rest) (λ j le. main_name name j)
                    ∙ ap (λ k. load_chunks jar name k (max_num_chunks - length rest)) from))
          ∙ sym (append_assoc c (concat rest) _),
    )

-- A session text from the cookies that a browser has after setCookie: `w` is the value of the first.
abbrev pub Loads : List Cookie → Bytes → Bytes → Type 0
Loads jar name text =
    (w : Bytes) × (cookie_value jar name ≡ some w) × (load_chunked_cookie jar name w ≡ text)

set_chunks :
    (name s : Bytes) (chunks : List Bytes) (jar : List Cookie)
    → concat chunks ≡ s
    → s ≢ []
    → length chunks ≤ suc max_num_chunks
    → Loads
        (put_all (chunk_cookies name 0 chunks) jar)
        name
        (s ++ load_chunks jar name (length chunks) (suc max_num_chunks - length chunks))
set_chunks name s [] jar e h k = absurd (h (sym e))
set_chunks name s (c ∷ rest) jar e h k =
    let loaded = load-first_chunk name c rest jar (omega (arith, k)) in
    let rounds : max_num_chunks - length rest ≡ suc max_num_chunks - suc (length rest) =
      omega arith in
    (
      chunked_canary_byte ∷ c,
      loaded.0,
      loaded.1
          ∙ ap (λ t. t ++ load_chunks jar name (suc (length rest)) (max_num_chunks - length rest)) e
          ∙ ap (λ n. s ++ load_chunks jar name (suc (length rest)) n) rounds,
    )

-- A session text that is not empty, of at most six chunks, whose cookie is too long to be set as
-- one, is loaded as that text followed by whatever chunks with the next numbers the browser still
-- holds from an earlier session.
pub load_stale :
    (cookie_length : Cookie → ℕ) (name s : Bytes) (jar : List Cookie)
    → s ≢ []
    → length s ≤ suc max_num_chunks * max_chunk_size
    → max_chunk_size < cookie_length (record { name = name; value = s })
    → Loads (put_all (set_cookie cookie_length (record { name = name; value = s })) jar) name (
        s
        ++ load_chunks jar name
            (length (chunk s max_chunk_size))
            (suc max_num_chunks - length (chunk s max_chunk_size)))
unfolding set_cookie chunk
load_stale cookie_length name s jar h len long =
    let big : leb (cookie_length (record { name = name; value = s })) max_chunk_size ≡ false =
      ground (arith, long) in
    rw big (
      set_chunks name s (chunk s max_chunk_size) jar
        (concat-chunk_from (length s) s max_chunk_size (omega arith) (omega arith)) h
        (length-chunk_from (length s) (suc max_num_chunks) s max_chunk_size len))

no_chunks :
    (jar : List Cookie) (name : Bytes) (i n : ℕ)
    → ((j : ℕ) → cookie_value jar (chunk_name name j) ≡ none)
    → load_chunks jar name i n ≡ []
unfolding load_chunks
no_chunks jar name i zero h = refl
no_chunks jar name i (suc n) h = rw (h i, load_chunks) refl

-- A session text of at most six chunks that does not start with the canary byte is loaded as it
-- was stored, in one cookie or in several, by a browser that holds no chunks of an earlier session.
pub load-set_cookie :
    (cookie_length : Cookie → ℕ) (name : Bytes) (x : ℕ) (s : Bytes) (jar : List Cookie)
    → (x == chunked_canary_byte) ≡ false
    → length (x ∷ s) ≤ suc max_num_chunks * max_chunk_size
    → ((j : ℕ) → cookie_value jar (chunk_name name j) ≡ none)
    → Loads
        (put_all (set_cookie cookie_length (record { name = name; value = x ∷ s })) jar)
        name
        (x ∷ s)
unfolding set_cookie load_chunked_cookie put_all
load-set_cookie cookie_length name x s jar plain len clean =
    elim (Bool-cases (leb (cookie_length (record { name = name; value = x ∷ s })) max_chunk_size)) [
      | inl e ↦ rw e (
        x ∷ s,
        cookie_value-put_cookie (record { name = name; value = x ∷ s }) jar name
            ∙ rw (bytes_eq_refl name) refl,
        rw plain refl,
      )
      | inr e ↦
          let chunks = chunk (x ∷ s) max_chunk_size in
          let loaded =
            load_stale cookie_length name (x ∷ s) jar (λ z. ground (arith, z)) len
              (ground (arith, e)) in
          (
            loaded.0,
            loaded.1,
            loaded.2
                ∙ ap (λ t. (x ∷ s) ++ t)
                    (no_chunks jar name (length chunks) (suc max_num_chunks - length chunks) clean)
                ∙ append-nil (x ∷ s),
          )
    ]
