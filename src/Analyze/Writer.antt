-- ===== src/Analyze/Writer.antt =====
-- `info_writer`: a channel of JSON values written to a file as one array.
use gossip_observer.Prelude.{
  ℕ, suc, ◌%◌, ◌==◌, ◌≡◌, refl, ap, sym, ◌∙◌, Bool, true, false, List, [], ◌∷◌, ◌++◌, if◌then◌else◌,
  Result, ok, err, ◌>>=◌, append_assoc, append-nil, ◌⊎◌, inl, inr, subst,
}
use gossip_observer.Prelude.Text.{Text, codes}

-- The standard library's `BufWriter` on a file, and serde_json's `to_writer_pretty`: each operation
-- may fail, and what the file holds then is not said. The laws are their documentation.
pub record Output : Type 1 where
  pub File : Type 0
  pub IoError : Type 0
  pub Value : Type 0
  pub written : File → Text
  pub flushed : File → Text
  pub pretty : Value → Text
  pub write_all : File → Text → Result File IoError
  pub to_writer_pretty : File → Value → Result File IoError
  pub flush : File → Result File IoError
  pub written-write_all :
      (file after : File) (t : Text)
      → write_all file t ≡ ok after
      → written after ≡ written file ++ t
  pub written-to_writer_pretty :
      (file after : File) (info : Value)
      → to_writer_pretty file info ≡ ok after
      → written after ≡ written file ++ pretty info
  pub written-flush :
      (file after : File)
      → flush file ≡ ok after
      → (written after ≡ written file) × (flushed after ≡ written file)

module _ (o : Output) where
  abbrev pub separated : Bool → o.File → Result o.File o.IoError
  separated true file = ok file
  separated false file = o.write_all file (codes ",\n")

  abbrev pub flush_every : ℕ → ℕ → o.File → Result o.File o.IoError
  flush_every flush_bound recv_counter file =
      if recv_counter % flush_bound == 0 then o.flush file else ok file

  -- The loop over the channel until it is closed, with the number of values and whether the next is
  -- the first. An error ends it.
  unfoldable pub write_values : ℕ → Bool → o.File → List o.Value → Result o.File o.IoError
  write_values recv_counter first file [] = ok file
  write_values recv_counter first file (info ∷ infos) = do
    before ← separated first file
    after ← o.to_writer_pretty before info
    next ← flush_every 10 (suc recv_counter) after
    write_values (suc recv_counter) false next infos

  unfoldable pub info_writer : o.File → List o.Value → Result o.File o.IoError
  info_writer file infos = do
    opened ← o.write_all file (codes "[\n")
    filled ← write_values 0 true opened infos
    closed ← o.write_all filled (codes "\n]\n")
    o.flush closed

  -- The values with a comma and a line break between them.
  abbrev pub commas : List o.Value → Text
  commas [] = []
  commas (v ∷ vs) = codes ",\n" ++ (o.pretty v ++ commas vs)

  abbrev pub elements : List o.Value → Text
  elements [] = []
  elements (v ∷ vs) = o.pretty v ++ commas vs

  -- An operation on the file gave the error.
  abbrev pub HasFailed : o.IoError → Type 0
  HasFailed e =
      ((file : o.File) × (t : Text) × (o.write_all file t ≡ err e))
      ⊎ ((file : o.File) × (info : o.Value) × (o.to_writer_pretty file info ≡ err e))
      ⊎ ((file : o.File) × (o.flush file ≡ err e))

  -- The file is as `P` says, or an operation on it failed.
  abbrev pub Outcome : (o.File → Type 0) → Result o.File o.IoError → Type 0
  Outcome P (ok file) = P file
  Outcome P (err e) = HasFailed e

  Outcome->>= :
      (P Q : o.File → Type 0) (r : Result o.File o.IoError) (k : o.File → Result o.File o.IoError)
      → Outcome P r
      → ((file : o.File) → P file → Outcome Q (k file))
      → Outcome Q (r >>= k)
  Outcome->>= P Q (ok file) k h f = f file h
  Outcome->>= P Q (err e) k h f = h

  write_all-Outcome :
      (file : o.File) (t : Text)
      → Outcome (λ after. o.written after ≡ o.written file ++ t) (o.write_all file t)
  write_all-Outcome file t = at_result (o.write_all file t) refl
    where
      at_result :
          (r : Result o.File o.IoError)
          → o.write_all file t ≡ r
          → Outcome (λ after. o.written after ≡ o.written file ++ t) r
      at_result (ok after) e = o.written-write_all file after t e
      at_result (err _) e = inl (file, t, e)

  to_writer-Outcome :
      (file : o.File) (v : o.Value)
      → Outcome
          (λ after. o.written after ≡ o.written file ++ o.pretty v)
          (o.to_writer_pretty file v)
  to_writer-Outcome file v = at_result (o.to_writer_pretty file v) refl
    where
      at_result :
          (r : Result o.File o.IoError)
          → o.to_writer_pretty file v ≡ r
          → Outcome (λ after. o.written after ≡ o.written file ++ o.pretty v) r
      at_result (ok after) e = o.written-to_writer_pretty file after v e
      at_result (err _) e = inr (inl (file, v, e))

  flush-Outcome :
      (file : o.File)
      → Outcome
          (λ after. (o.written after ≡ o.written file) × (o.flushed after ≡ o.written file))
          (o.flush file)
  flush-Outcome file = at_result (o.flush file) refl
    where
      at_result :
          (r : Result o.File o.IoError)
          → o.flush file ≡ r
          → Outcome
              (λ after. (o.written after ≡ o.written file) × (o.flushed after ≡ o.written file))
              r
      at_result (ok after) e = o.written-flush file after e
      at_result (err _) e = inr (inr (file, e))

  flush_every-Outcome :
      (n k : ℕ) (file : o.File)
      → Outcome (λ after. o.written after ≡ o.written file) (flush_every n k file)
  flush_every-Outcome n k file = at_test (k % n == 0)
    where
      at_test :
          (b : Bool)
          → Outcome
              (λ after. o.written after ≡ o.written file)
              (if b then o.flush file else ok file)
      at_test false = refl
      at_test true = at_result (o.flush file) (flush-Outcome file)
        where
          at_result :
              (r : Result o.File o.IoError)
              → Outcome
                  (λ after. (o.written after ≡ o.written file) × (o.flushed after ≡ o.written file))
                  r
              → Outcome (λ after. o.written after ≡ o.written file) r
          at_result (ok after) (p, q) = p
          at_result (err e) h = h

  -- One turn of the loop, where `b` is what is written before the value.
  written_value :
      (k : ℕ) (start : Text) (before : o.File) (b : Text) (v : o.Value) (vs : List o.Value)
      → o.written before ≡ start ++ b
      → ((next : o.File)
          → Outcome
              (λ after. o.written after ≡ o.written next ++ commas vs)
              (write_values (suc k) false next vs))
      → Outcome
          (λ after. o.written after ≡ start ++ (b ++ (o.pretty v ++ commas vs)))
          (do
            after ← o.to_writer_pretty before v
            next ← flush_every 10 (suc k) after
            write_values (suc k) false next vs)
  written_value k start before b v vs p rest =
      let Q : o.File → Type 0 =
        λ after. o.written after ≡ start ++ (b ++ (o.pretty v ++ commas vs)) in
      Outcome->>= _ Q (o.to_writer_pretty before v) _ (to_writer-Outcome before v) λ after q.
        Outcome->>= _ Q (flush_every 10 (suc k) after) _ (flush_every-Outcome 10 (suc k) after)
          λ next r.
            subst (λ t. Outcome (λ f. o.written f ≡ t) (write_values (suc k) false next vs))
              (ap (λ t. t ++ commas vs) (r ∙ q ∙ ap (λ t. t ++ o.pretty v) p)
                ∙ append_assoc (start ++ b) (o.pretty v) (commas vs)
                ∙ append_assoc start b (o.pretty v ++ commas vs))
              (rest next)

  write_values-commas :
      (k : ℕ) (file : o.File) (vs : List o.Value)
      → Outcome
          (λ after. o.written after ≡ o.written file ++ commas vs)
          (write_values k false file vs)
  unfolding write_values
  write_values-commas k file [] = sym (append-nil (o.written file))
  write_values-commas k file (v ∷ vs) =
      Outcome->>= _ (λ after. o.written after ≡ o.written file ++ commas (v ∷ vs))
        (o.write_all file (codes ",\n")) _ (write_all-Outcome file (codes ",\n"))
        λ before p.
          written_value k (o.written file) before (codes ",\n") v vs p
            (λ next. write_values-commas (suc k) next vs)

  write_values-elements :
      (file : o.File) (vs : List o.Value)
      → Outcome
          (λ after. o.written after ≡ o.written file ++ elements vs)
          (write_values 0 true file vs)
  unfolding write_values
  write_values-elements file [] = sym (append-nil (o.written file))
  write_values-elements file (v ∷ vs) =
      written_value 0 (o.written file) file [] v vs (sym (append-nil (o.written file)))
        (λ next. write_values-commas 1 next vs)

  -- The text is all in the file, and all of it is flushed.
  abbrev pub IsComplete : Text → o.File → Type 0
  IsComplete t file = (o.written file ≡ t) × (o.flushed file ≡ t)

  -- Whatever values the channel gives, either the file ends with one bracketed list of them all, in
  -- order, with a comma between any two and none after the last, and all of it is flushed, or the
  -- task ends with the error that a write, a flush or the serialisation of a value gave. So if none
  -- of these fails, the list is complete.
  pub info_writer_lem :
      (file : o.File) (vs : List o.Value)
      → let t = o.written file ++ (codes "[\n" ++ (elements vs ++ codes "\n]\n")) in
        Outcome (IsComplete t) (info_writer file vs)
  unfolding info_writer
  info_writer_lem file vs =
      let t = o.written file ++ (codes "[\n" ++ (elements vs ++ codes "\n]\n")) in
      let Q = IsComplete t in
      Outcome->>= _ Q (o.write_all file (codes "[\n")) _ (write_all-Outcome file (codes "[\n"))
        λ opened p.
          Outcome->>= _ Q (write_values 0 true opened vs) _ (write_values-elements opened vs)
            λ filled q.
              Outcome->>= _ Q (o.write_all filled (codes "\n]\n")) _
                (write_all-Outcome filled (codes "\n]\n"))
                λ closed r.
                  let same : o.written closed ≡ t =
                    r
                    ∙ ap (λ w. w ++ codes "\n]\n") (q ∙ ap (λ w. w ++ elements vs) p)
                    ∙ append_assoc (o.written file ++ codes "[\n") (elements vs) (codes "\n]\n")
                    ∙ append_assoc (o.written file) (codes "[\n") (elements vs ++ codes "\n]\n") in
                  subst (λ w. Outcome (IsComplete w) (o.flush closed)) same (flush-Outcome closed)
