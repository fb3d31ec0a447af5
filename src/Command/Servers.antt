-- ===== src/Command/Servers.antt =====
-- cmd/wwwscan: the lists that a flag holds, `(*resolverFlags).build` and the servers of `benchOne` in one, and
-- `intList`.
use www_scanner.Prelude.{
  List, [], ◌∷◌, none, some, Result, ok, err, panic, ℤ, if◌then◌else◌, Text, eq_text,
}
use www_scanner.Prelude.Integers.{atoi}
use www_scanner.Prelude.Strings.{trim_space, split_at}

-- the loop over the pieces of `-resolver`
unfoldable pub keep_servers : List Text → List Text
unfolding trim_space eq_text
keep_servers [] = []
keep_servers (s ∷ pieces) =
    let rest = keep_servers pieces in
    if eq_text (trim_space s) [] then rest else trim_space s ∷ rest

-- `cfg.Servers` after the flag; none for the empty flag
unfoldable pub server_list : Text → List Text
unfolding keep_servers eq_text split_at
server_list servers = if eq_text servers [] then [] else keep_servers (split_at b',' servers)

pub data ListError : Type 0 where
  not_a_number : Text → ListError
  no_values : ListError

-- the loop of `intList`
unfoldable pub read_ints : List Text → Result ListError (List ℤ)
unfolding trim_space eq_text atoi
read_ints [] = ok []
read_ints (part ∷ parts) =
    let rest = read_ints parts in
    if eq_text (trim_space part) [] then rest else elim (atoi (trim_space part)) [
      | none ↦ err (not_a_number (trim_space part))
      | some n ↦ elim rest [ ok ns ↦ ok (n ∷ ns) | err e ↦ err e | panic ↦ panic ]
    ]

-- `intList`
unfoldable pub int_list : Text → Result ListError (List ℤ)
unfolding read_ints split_at
int_list s = elim (read_ints (split_at b',' s)) [
  | ok [] ↦ err no_values
  | ok (n ∷ ns) ↦ ok (n ∷ ns)
  | err e ↦ err e
  | panic ↦ panic
]
