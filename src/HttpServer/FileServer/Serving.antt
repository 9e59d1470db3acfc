-- ===== src/HttpServer/FileServer/Serving.antt =====
-- A file in parts, a connection with several requests, and the files that a MON shares.
use ceph_mesos.Prelude.{
  Bool, List, Text, [], ap, arith, false, length, refl, suc, sym, take, text_eq, zero, ℕ, ◌++◌, ◌+◌,
  ◌∙◌, ◌∷◌, ◌≡◌, ◌≤◌,
}
use ceph_mesos.HttpServer.FileServer.{
  FileReply, FileSystem, beyond_url, drop_bytes, file_reader, file_request, file_yes, get_method,
  serve_path,
}

-- What the callback reads when it is asked for at most so many bytes each time, from where it stopped.
unfoldable pub read_parts : Text → ℕ → List ℕ → Text
unfolding file_reader
read_parts file position [] = []
read_parts file position (max ∷ maxes) =
    let part = file_reader file position max in
    part ++ read_parts file (position + length part) maxes

abbrev pub sum : List ℕ → ℕ
sum [] = 0
sum (n ∷ ns) = n + sum ns

take-nil : (n : ℕ) → take {A = ℕ} n [] ≡ []
take-nil zero = refl
take-nil (suc n) = refl

zero_add : (n : ℕ) → 0 + n ≡ n
zero_add n = omega arith

suc_add : (m n : ℕ) → suc m + n ≡ suc (m + n)
suc_add m n = omega arith

drop_bytes-nil : (n : ℕ) → drop_bytes n [] ≡ []
drop_bytes-nil zero = refl
drop_bytes-nil (suc n) = refl

drop_bytes-add : (m n : ℕ) (s : Text) → drop_bytes (m + n) s ≡ drop_bytes n (drop_bytes m s)
drop_bytes-add zero n s = rw (zero_add n) refl
drop_bytes-add (suc m) n [] = drop_bytes-nil (suc m + n) ∙ sym (drop_bytes-nil n)
drop_bytes-add (suc m) n (c ∷ s) = rw (suc_add m n) (drop_bytes-add m n s)

take-add :
    (m n : ℕ) (s : Text) → take m s ++ take n (drop_bytes (length (take m s)) s) ≡ take (m + n) s
take-add zero n s = rw (zero_add n) refl
take-add (suc m) n [] = take-nil n ∙ sym (take-nil (suc m + n))
take-add (suc m) n (c ∷ s) = rw (suc_add m n) (ap (◌∷◌ c) (take-add m n s))

read_parts-from :
    (file : Text) (position : ℕ) (maxes : List ℕ)
    → read_parts file position maxes ≡ take (sum maxes) (drop_bytes position file)
unfolding read_parts file_reader
read_parts-from file position [] = refl
read_parts-from file position (max ∷ maxes) =
    let before = drop_bytes position file in
    ap (λ rest. take max before ++ rest)
      (read_parts-from file (position + length (take max before)) maxes
        ∙ ap (take (sum maxes)) (drop_bytes-add position (length (take max before)) file))
    ∙ take-add max (sum maxes) before

take-all : (n : ℕ) (s : Text) → length s ≤ n → take n s ≡ s
take-all zero [] h = refl
take-all zero (c ∷ s) h = absurd (omega arith)
take-all (suc n) [] h = refl
take-all (suc n) (c ∷ s) h = ap (◌∷◌ c) (take-all n s (omega arith))

-- However the daemon cuts its reads, as long as it asks for the file's size in all, the parts that the
-- callback reads, each from where the one before stopped, make up the file.
pub read_parts_lem :
    (file : Text) (maxes : List ℕ) → length file ≤ sum maxes → read_parts file 0 maxes ≡ file
read_parts_lem file maxes h = read_parts-from file 0 maxes ∙ take-all (sum maxes) file h

module _ (fs : FileSystem) (path : Text) where
  -- The calls of one connection, each with its method and url, in order.
  unfoldable pub file_calls : List (Text × Text) → Bool → List FileReply × Bool
  unfolding file_request
  file_calls [] marked = ([], marked)
  file_calls ((method, url) ∷ calls) marked =
      let this = file_request fs path method url marked in
      let rest = file_calls calls this.marked in (this.reply ∷ rest.0, rest.1)

  -- The daemon's two calls for each request.
  abbrev pub two_calls : List Text → List (Text × Text)
  two_calls [] = []
  two_calls (url ∷ urls) = (get_method, url) ∷ (get_method, url) ∷ two_calls urls

  -- For each request, one call without a response, and one that answers it.
  abbrev pub one_answer_each : List Text → List FileReply
  one_answer_each [] = []
  one_answer_each ([] ∷ urls) = file_yes ∷ beyond_url ∷ one_answer_each urls
  one_answer_each ((c ∷ surl) ∷ urls) =
      file_yes ∷ serve_path fs (fs.text_at (path ++ surl)) ∷ one_answer_each urls

  -- On a connection that is kept for several GET requests, each request is answered once, by the second
  -- of its two calls and from its own url, and the connection is as new behind it.
  pub file_calls_lem :
      (urls : List Text) → file_calls (two_calls urls) false ≡ (one_answer_each urls, false)
  unfolding file_calls file_request text_eq
  file_calls_lem [] = refl
  file_calls_lem ([] ∷ urls) = rw (file_calls_lem urls) refl
  file_calls_lem ((c ∷ surl) ∷ urls) = rw (file_calls_lem urls) refl
