-- ===== src/Archive/Decode/Printed.antt =====
-- What the decoder makes of the reports that the collectors print.
use gossip_observer.Archive.Decode.{
  DecodeError, MessageType, intra_delim, parse_type, type_code, parse_unsigned, optional, micros,
  number, decode_parts, decode_msg,
}
use gossip_observer.Archive.Decode.Numbers.{print_number, digits-cons, parse_unsigned-print_number}
use gossip_observer.Archive.Decode.Report.{
  Printer, type_names, Report, print_optional, first_part, later_parts, print_report, archived,
  scid_fits, IsGiven, IsPlain, parts-FreeOf,
}
use gossip_observer.Archive.Records.{Feed}
use gossip_observer.Prelude.{
  ℕ, ◌^◌, ◌≡◌, refl, ap, sym, ◌∙◌, Bool, true, false, ◌&&◌, [], ◌∷◌, Option, none, some, Result, ok,
  err, if◌then◌else◌, ltb, Any, inl, inr, ok_or, ◌>>=◌,
}
use gossip_observer.Prelude.Split.{split_on-join}
use gossip_observer.Prelude.Text.{Text, codes, Text-discrete}

module _ (f : Feed) (p : Printer f) where
  optional-micros :
      (o : Option f.DateTime) → optional (micros f) (print_optional f p p.print_micros o) ≡ ok o
  optional-micros none = refl
  optional-micros (some t) =
      let (c, s, e) = p.micros-cons t in
      let parsed : f.parse_micros (c ∷ s) ≡ some t =
        ap f.parse_micros (sym e) ∙ p.parse-print_micros t in
      ap (optional (micros f)) e ∙ rw parsed refl

  optional-node :
      (o : Option Text)
      → IsGiven f p o
      → ◌≡◌ {A = Result (Option Text) DecodeError}
          (optional ok (print_optional f p (λ node. node) o))
          (ok o)
  optional-node none h = refl
  optional-node (some []) h = absurd (h refl)
  optional-node (some (c ∷ t)) h = refl

  number_fits : (w n : ℕ) → ltb n (2 ^ w) ≡ true → parse_unsigned w (print_number n) ≡ some n
  number_fits w n e = parse_unsigned-print_number w n ∙ rw e refl

  number_overflows :
      (w n : ℕ)
      → ltb n (2 ^ w) ≡ false
      → number f w (print_number n) ≡ err DecodeError.invalid_number
  number_overflows w n e = ap (λ o. ok_or o DecodeError.invalid_number) (refused w n e)
    where
      refused : (w n : ℕ) → ltb n (2 ^ w) ≡ false → parse_unsigned w (print_number n) ≡ none
      refused w n e = parse_unsigned-print_number w n ∙ rw e refl

  optional-number :
      (parse : Text → Result ℕ DecodeError) (o : Result ℕ DecodeError) (n : ℕ)
      → parse (print_number n) ≡ o
      → optional parse (print_number n) ≡ (do a ← o; ok (some a))
  optional-number parse o n e =
      let (d, t, h) = digits-cons n n [] in
      ap (optional parse) h ∙ ap (λ r. do a ← r; ok (some a)) (ap parse (sym h) ∙ e)

  scid-fits :
      (o : Option ℕ)
      → scid_fits f p o ≡ true
      → optional (number f 64) (print_optional f p print_number o) ≡ ok o
  scid-fits none e = refl
  scid-fits (some n) e =
      optional-number (number f 64) (ok n) n
        (ap (λ o. ok_or o DecodeError.invalid_number) (number_fits 64 n e))

  scid-overflows :
      (o : Option ℕ)
      → scid_fits f p o ≡ false
      → optional (number f 64) (print_optional f p print_number o) ≡ err DecodeError.invalid_number
  scid-overflows none e = cc
  scid-overflows (some n) e =
      optional-number (number f 64) (err DecodeError.invalid_number) n (number_overflows 64 n e)

  at_entry :
      (q : Text × ℕ) (kind : MessageType) (name : Text) (n : ℕ)
      → q ≡ (name, n)
      → parse_type q.0 ≡ ok kind
      → type_code kind ≡ q.1
      → (k : MessageType) × (parse_type name ≡ ok k) × (type_code k ≡ n)
  at_entry q kind name n e h c = (kind, ap (λ r. parse_type r.0) (sym e) ∙ h, c ∙ ap (λ r. r.1) e)

  -- The decoder knows the names.
  parse_type-names :
      (name : Text) (n : ℕ)
      → Any (λ q. q ≡ (name, n)) type_names
      → (kind : MessageType) × (parse_type name ≡ ok kind) × (type_code kind ≡ n)
  unfolding parse_type Text-discrete
  parse_type-names name n (inl e) =
      at_entry (codes "ca", 1) MessageType.channel_announcement name n e refl refl
  parse_type-names name n (inr (inl e)) =
      at_entry (codes "na", 2) MessageType.node_announcement name n e refl refl
  parse_type-names name n (inr (inr (inl e))) =
      at_entry (codes "cu", 3) MessageType.channel_update name n e refl refl
  parse_type-names name n (inr (inr (inr (inl e)))) =
      at_entry (codes "ping", 4) MessageType.ping name n e refl refl
  parse_type-names name n (inr (inr (inr (inr (inl e))))) =
      at_entry (codes "pong", 5) MessageType.pong name n e refl refl
  parse_type-names name n (inr (inr (inr (inr (inr e))))) = absurd e

  decode_parts-later :
      (r : Report f p) (a b c : Bool)
      → Any (λ q. q ≡ (r.type_name, r.type_number)) type_names
      → IsGiven f p r.node
      → ltb r.size (2 ^ 16) ≡ a
      → ltb r.inner_hash (2 ^ 64) ≡ b
      → scid_fits f p r.scid ≡ c
      → decode_parts f (first_part f p r ∷ later_parts f p r)
        ≡ (if a && b && c then ok (archived f p r) else err DecodeError.invalid_number)
  unfolding decode_parts
  decode_parts-later r true true true k g ea eb ec =
      let (kind, h, n) = parse_type-names r.type_name r.type_number k in
      rw
        (
          p.parse-print_micros r.now,
          h,
          p.parse-print_direction r.dir,
          number_fits 16 r.size ea,
          number_fits 64 r.inner_hash eb,
          optional-micros r.sent,
          optional-node r.node g,
          scid-fits r.scid ec,
          n,
        )
        refl
  decode_parts-later r true true false k g ea eb ec =
      let (kind, h, n) = parse_type-names r.type_name r.type_number k in
      rw
        (
          p.parse-print_micros r.now,
          h,
          p.parse-print_direction r.dir,
          number_fits 16 r.size ea,
          number_fits 64 r.inner_hash eb,
          optional-micros r.sent,
          optional-node r.node g,
          scid-overflows r.scid ec,
        )
        refl
  decode_parts-later r true false c k g ea eb ec =
      let (kind, h, n) = parse_type-names r.type_name r.type_number k in
      rw
        (
          p.parse-print_micros r.now,
          h,
          p.parse-print_direction r.dir,
          number_fits 16 r.size ea,
          number_overflows 64 r.inner_hash eb,
        )
        refl
  decode_parts-later r false b c k g ea eb ec =
      let (kind, h, n) = parse_type-names r.type_name r.type_number k in
      rw
        (
          p.parse-print_micros r.now,
          h,
          p.parse-print_direction r.dir,
          number_overflows 16 r.size ea,
        )
        refl

  -- A report with one of the five type names and without commas in its texts, printed in the eleven
  -- fields of the format, is decoded to exactly what it says, with the type's number and the hashes
  -- of the peer and of the message, if its size fits in 16 bits and its inner hash and its channel
  -- id in 64 bits. Otherwise it is refused for its numbers. The node id is not empty if there is
  -- one.
  pub decode_msg-print_report :
      (r : Report f p)
      → Any (λ q. q ≡ (r.type_name, r.type_number)) type_names
      → IsGiven f p r.node
      → IsPlain f p r
      → decode_msg f (print_report f p r) ≡ (
          if ltb r.size (2 ^ 16) && ltb r.inner_hash (2 ^ 64) && scid_fits f p r.scid
          then ok (archived f p r)
          else err DecodeError.invalid_number)
  unfolding decode_msg
  decode_msg-print_report r k g plain =
      ap (decode_parts f) (
        split_on-join intra_delim (first_part f p r) (later_parts f p r)
          (parts-FreeOf f p r k plain))
      ∙ decode_parts-later r (ltb r.size (2 ^ 16)) (ltb r.inner_hash (2 ^ 64))
          (scid_fits f p r.scid) k g refl refl refl
