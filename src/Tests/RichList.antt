-- ===== src/Tests/RichList.antt =====
-- packages/rich-list-core/src/persistent: runs, and the theorems at concrete inputs.
use jellyfishsdk.Prelude.{
  ℕ, ◌⊎◌, ◌≤◌, ◌≡◌, refl, arith, List, [], ◌∷◌, ◌++◌, All, length, leb, if◌then◌else◌,
}
use jellyfishsdk.Buffer.Hex.{Text}
use jellyfishsdk.RichList.Queue.{push, receive, remove_first, IsAbsent, push_lem, receive-keeps}
use jellyfishsdk.RichList.Database.{
  Schema, Database, put, delete, delete_in, list, partition_of, drop_last, has_id, put_in,
  sort_entries, insert, remove_id,
}
use jellyfishsdk.RichList.Database.Laws.{
  IsDatabase, IsDescending, greatest, database-IsDatabase, list-top,
}
use mathlib.Core.List.{Perm}

abbrev alice : Text
alice = b'a' ∷ []

abbrev bob : Text
bob = b'b' ∷ []

abbrev carol : Text
carol = b'c' ∷ []

abbrev queue : List Text
queue = alice ∷ bob ∷ carol ∷ []

push_again : push alice queue ≡ bob ∷ carol ∷ alice ∷ []
unfolding push remove_first
push_again = refl

-- Four are asked for, and one of the three is received.
receive_few : receive 4 queue ≡ (carol ∷ [], alice ∷ bob ∷ [])
unfolding receive
receive_few = refl

push_lem_example :
    (IsAbsent bob queue × (push bob queue ≡ queue ++ (bob ∷ [])))
    ⊎ ((front : List Text) × (back : List Text) × (queue ≡ front ++ (bob ∷ back))
        × IsAbsent bob front
        × (push bob queue ≡ (front ++ back) ++ (bob ∷ [])))
push_lem_example = push_lem bob queue

receive-keeps_example : (receive 4 queue).1 ++ (receive 4 queue).0 ≡ queue
receive-keeps_example = receive-keeps 4 queue

-- One is asked for, and all three are received.
receive_too_many : receive 1 queue ≡ (queue, [])
unfolding receive
receive_too_many = refl

abbrev token : Text
token = b'0' ∷ []

abbrev entry : Text → ℕ → Schema ℕ
entry id amount = record { id = id; partition = token; sort = amount; payload = amount }

abbrev balances : Database ℕ
balances = (token, entry alice 3 ∷ entry bob 8 ∷ []) ∷ []

balances-IsDatabase : IsDatabase balances
balances-IsDatabase = (((omega arith, tt), (tt, tt)), tt)

put_between :
    put (entry carol 5) balances ≡ (token, entry alice 3 ∷ entry carol 5 ∷ entry bob 8 ∷ []) ∷ []
unfolding put put_in sort_entries insert remove_id
put_between = refl

database-IsDatabase_example :
    IsDatabase (put (entry carol 5) balances) × IsDatabase (delete alice balances)
database-IsDatabase_example = database-IsDatabase (entry carol 5) alice balances balances-IsDatabase

-- An id that is not there: the last entry is deleted.
delete_absent : delete carol balances ≡ (token, entry alice 3 ∷ []) ∷ []
unfolding delete delete_in has_id drop_last
delete_absent = refl

abbrev top : List (Schema ℕ)
top = list (greatest token 1) balances

list-top_example :
    (others : List (Schema ℕ)) × Perm (top ++ others) (partition_of token balances)
    × IsDescending top
    × All (λ x. All (λ y. y.sort ≤ x.sort) others) top
    × (length top ≡ (
        if leb 1 (length (partition_of token balances))
        then 1
        else length (partition_of token balances)))
list-top_example = list-top token 1 balances balances-IsDatabase
