-- ===== src/Payload/Repeated.antt =====
-- cmd/test-consumer/main.go: the payload file holds the text again and again, as far as the disk takes it.
use cwnd_warm_up_proxy.Prelude.{
  Bool, ℕ, zero, suc, ◌+◌, ◌-◌, ◌*◌, ◌%◌, ◌≤◌, ◌<◌, ◌≡◌, refl, sym, ap, subst, ◌∙◌, inl, inr, List,
  [], ◌∷◌, ◌++◌, append_assoc, append-nil, ap₂, take_nil, Option, none, some, length, length-take,
  take, get_or, ltb, min, if◌then◌else◌, Bool-cases, arith, true, false,
}
use cwnd_warm_up_proxy.Prelude.Results.{ok}
use cwnd_warm_up_proxy.Protocol.{Error, short_write}
use cwnd_warm_up_proxy.Protocol.Io.{Writer, write}
use cwnd_warm_up_proxy.Payload.{
  pattern, Written, wrote, failed, unless_full, next_chunk, write_chunks, Disk, synced,
  write_payload_file,
}

-- The first bytes of the text repeated without end.
abbrev pub text : ℕ → List ℕ
text zero = []
text (suc n) = text n ++ (get_or pattern (n % 45) 0 ∷ [])

take-suc :
    (j : ℕ) (xs : List ℕ) → j < length xs → take (suc j) xs ≡ take j xs ++ (get_or xs j 0 ∷ [])
take-suc j [] l = absurd (omega (arith, l))
take-suc zero (x ∷ xs) l = refl
take-suc (suc j) (x ∷ xs) l = ap (◌∷◌ x) (take-suc j xs (omega (arith, l)))

take-take : (a b n : ℕ) (xs : List ℕ) → min a b ≡ n → take a (take b xs) ≡ take n xs
take-take zero b n xs e =
    let none_left : 0 ≡ n = omega (arith, e) in subst (λ n. [] ≡ take n xs) none_left refl
take-take (suc a) zero n xs e =
    let none_left : 0 ≡ n = omega (arith, e) in subst (λ n. [] ≡ take n xs) none_left refl
take-take (suc a) (suc b) n [] e = sym (take_nil n)
take-take (suc a) (suc b) zero (x ∷ xs) e = absurd (omega (arith, e))
take-take (suc a) (suc b) (suc n) (x ∷ xs) e = ap (◌∷◌ x) (take-take a b n xs (omega (arith, e)))

text_add : (k j n : ℕ) → j ≤ 45 → n ≡ 45 * k + j → text n ≡ text (45 * k) ++ take j pattern
text_add k zero n l e =
    let at : n ≡ 45 * k = omega (arith, e) in ap text at ∙ sym (append-nil (text (45 * k)))
text_add k (suc j) zero l e = absurd (omega (arith, e))
text_add k (suc j) (suc n) l e =
    let rest : n % 45 ≡ j = omega (arith, l, e) in
    ap₂ (λ bytes i. bytes ++ (get_or pattern i 0 ∷ []))
      (text_add k j n (omega (arith, l)) (omega (arith, e))) rest
    ∙ append_assoc (text (45 * k)) (take j pattern) (get_or pattern j 0 ∷ [])
    ∙ ap (λ bytes. text (45 * k) ++ bytes) (sym (take-suc j pattern (omega (arith, l))))

-- The bytes that fit, and whether all do.
abbrev Fits : ℕ → ℕ → Writer × Written → Type 0
Fits size most (file, outcome) =
    (file.accepted ≡ text (min most size))
    × (outcome ≡ (if ltb most size then failed short_write else wrote))

over-Fits :
    (size most : ℕ) (file : Writer)
    → file.accepted ≡ text size
    → size ≤ most
    → Fits size most (file, wrote)
over-Fits size most file e l =
    let all : min most size ≡ size = omega (arith, l) in
    let none_short : ltb most size ≡ false = ground (arith, l) in
    (e ∙ sym (ap text all), rw none_short refl)

stops : (n size : ℕ) (file : Writer) → write_chunks n size size file ≡ (file, wrote)
unfolding write_chunks
stops zero size file = let over : ltb size size ≡ false = ground arith in rw over refl
stops (suc n) size file = let over : ltb size size ≡ false = ground arith in rw over refl

length-next_chunk :
    (size written c : ℕ) → min (size - written) 45 ≡ c → length (next_chunk size written) ≡ c
unfolding next_chunk
length-next_chunk size written c e = elim (Bool-cases (ltb (size - written) 45)) [
  | inl last ↦ rw last (ground (arith, length-take (size - written) pattern, e, last))
  | inr more ↦ rw more (ground (arith, e, more))
]

next_chunk_lem :
    (size written c : ℕ) → min (size - written) 45 ≡ c → next_chunk size written ≡ take c pattern
unfolding next_chunk
next_chunk_lem size written c e = elim (Bool-cases (ltb (size - written) 45)) [
  | inl last ↦
      let same : size - written ≡ c = ground (arith, e, last) in
      rw last (ap (λ n. take n pattern) same)
  | inr more ↦
      let same : 45 ≡ c = ground (arith, e, more) in rw more (ap (λ n. take n pattern) same)
]

-- One round: the chunk does not fit, or the rest is written behind it.
round-Fits :
    (k size c : ℕ) (file : Writer) (chunk : List ℕ) (rest : Writer → Writer × Written)
    → chunk ≡ take c pattern
    → length chunk ≡ c
    → c ≤ 45
    → 45 * k + c ≤ size
    → file.accepted ≡ text (45 * k)
    → (c ≤ file.room
        → (next : Writer) → next.accepted ≡ text (45 * k + c)
        → next.room ≡ file.room - c
        → Fits size (45 * k + file.room) (rest next))
    → let (next, count, e) = write file chunk in
      Fits size (45 * k + file.room) (unless_full next e (rest next))
unfolding write
round-Fits k size c file chunk rest is length_is small l e go =
    elim (Bool-cases (ltb file.room (length chunk))) [
      | inl short ↦ rw short (
          let most : min (45 * k + file.room) size ≡ 45 * k + file.room =
            ground (arith, short, l, length_is) in
          let fails : ltb (45 * k + file.room) size ≡ true = ground (arith, short, l, length_is) in
          (
            ap (λ xs. file.accepted ++ take file.room xs) is
                ∙ ap₂ (λ xs ys. xs ++ ys) e
                    (take-take file.room c file.room pattern (ground (arith, short, length_is)))
                ∙ sym (text_add k file.room _ (ground (arith, short, length_is, small)) most),
            rw fails refl,
          ))
      | inr fits ↦ rw fits (
          let room : c ≤ file.room = ground (arith, fits, length_is) in
          go room (write file chunk).0
            (ap (λ xs. file.accepted ++ take file.room xs) is
              ∙ ap₂ (λ xs ys. xs ++ ys) e (take-take file.room c c pattern (omega (arith, room)))
              ∙ sym (text_add k c _ small refl))
            (ap (λ n. file.room - n) length_is))
    ]

write_chunks-Fits :
    (n k size : ℕ) (file : Writer)
    → file.accepted ≡ text (45 * k)
    → 45 * k ≤ size
    → size < 45 * (k + n)
    → Fits size (45 * k + file.room) (write_chunks n size (45 * k) file)
unfolding write_chunks
write_chunks-Fits zero k size file e l enough = absurd (omega (arith, l, enough))
write_chunks-Fits (suc n) k size file e l enough = elim (Bool-cases (ltb (45 * k) size)) [
  | inr over ↦
      let at : 45 * k ≡ size = ground (arith, l, over) in
      rw over (over-Fits size (45 * k + file.room) file (e ∙ ap text at) (omega (arith, at)))
  | inl more ↦
      let chunk = next_chunk size (45 * k) in
      let c = length chunk in
      let is : min (size - 45 * k) 45 ≡ c = sym (length-next_chunk size (45 * k) _ refl) in
      rw more (
        round-Fits k size c file chunk (write_chunks n size (45 * k + c))
          (next_chunk_lem size (45 * k) c is) refl (omega (arith, is)) (omega (arith, is, l)) e
          (λ room next a r. elim (Bool-cases (ltb (45 * k + c) size)) [
            | inr over ↦
                let at : 45 * k + c ≡ size = ground (arith, is, over, l) in
                subst (λ w. Fits size (45 * k + file.room) (write_chunks n size w next)) (sym at)
                  (subst (Fits size (45 * k + file.room)) (sym (stops n size next)) (
                    over-Fits size (45 * k + file.room) next (a ∙ ap text at)
                      (omega (arith, at, room))))
            | inl again ↦
                let full : 45 * k + c ≡ 45 * suc k = ground (arith, is, again) in
                let most : 45 * suc k + next.room ≡ 45 * k + file.room =
                  omega (arith, full, room, r) in
                subst (λ w. Fits size (45 * k + file.room) (write_chunks n size w next)) (sym full)
                  (subst (λ m. Fits size m (write_chunks n size (45 * suc k) next)) most
                    (write_chunks-Fits n (suc k) size next (a ∙ ap text full)
                      (ground (arith, full, again)) (omega (arith, enough))))
          ]))
]

-- What is returned by a loop that is through, once the file is synced.
abbrev pub returned : Option Error → Written
returned none = wrote
returned (some e) = failed e

abbrev Ends : Disk → ℕ → ℕ → Option Writer × Written → Type 0
Ends disk size room (made, outcome) =
    (file : Writer) × (made ≡ some file)
    × (file.accepted ≡ text (min room size))
    × (outcome ≡ (if ltb room size then failed short_write else returned disk.sync))

synced_lem :
    (sync : Option Error) (b : Bool) (file : Writer) (outcome : Written) (e : Error)
    → outcome ≡ (if b then failed e else wrote)
    → synced sync (file, outcome) ≡ (file, if b then failed e else returned sync)
synced_lem none true file outcome e q = rw q refl
synced_lem none false file outcome e q = rw q refl
synced_lem (some x) true file outcome e q = rw q refl
synced_lem (some x) false file outcome e q = rw q refl

into_file-Ends :
    (disk : Disk) (size room : ℕ) (t : Writer × Written)
    → Fits size room t
    → Ends disk size room (some (synced disk.sync t).0, (synced disk.sync t).1)
into_file-Ends disk size room (file, outcome) (a, o) =
    let s = synced_lem disk.sync (ltb room size) file outcome short_write o in
    ((synced disk.sync (file, outcome)).0, refl, ap (λ t. t.0.accepted) s ∙ a, ap (λ t. t.1) s)

-- The payload file, where it can be made and is empty at first, ends up with the text again and again,
-- up to the asked size or as far as the disk takes it; the loop is through within one round more than
-- there are pieces of the text, and then the error is that of the full disk or that of the sync.
pub write_payload_file_lem :
    (disk : Disk) (file : Writer) (rounds size : ℕ)
    → disk.mkdir ≡ none
    → disk.create ≡ ok file
    → file.accepted ≡ []
    → size < 45 * rounds
    → let t = write_payload_file disk rounds size in
      (made : Writer) × (t.0 ≡ some made)
      × (made.accepted ≡ text (min file.room size))
      × (t.1 ≡ (if ltb file.room size then failed short_write else returned disk.sync))
unfolding write_payload_file
write_payload_file_lem disk file rounds size m c a enough =
    let same_room : 45 * 0 + file.room ≡ file.room = omega arith in
    let fits =
      subst (λ most. Fits size most (write_chunks rounds size 0 file)) same_room
        (write_chunks-Fits rounds 0 size file a (omega arith) (omega (arith, enough))) in
    rw (m, c) (into_file-Ends disk size file.room (write_chunks rounds size 0 file) fits)
