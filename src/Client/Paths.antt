-- ===== src/Client/Paths.antt =====
-- dashboard/utils/api_client.py: the parts of the paths that the client asks for.
use netdeploy.Base.{◌≡◌, refl, true, false, [], ◌∷◌, ◌++◌, arith}
use netdeploy.Text.{Text, codes, split_on, text_eq, lacks, split_on-lacks, split_on-lacks-append}
use netdeploy.Client.Asks.{is_id, id_char}

-- An id is one part of a path.
id-lacks_slash : (id : Text) → is_id id ≡ true → lacks 47 id ≡ true
unfolding is_id id_char lacks
id-lacks_slash [] h = cc
id-lacks_slash (c ∷ []) h = ground arith
id-lacks_slash (c ∷ d ∷ t) h = ground (arith, id-lacks_slash (d ∷ t))

pub split_on-id : (id : Text) → is_id id ≡ true → split_on 47 id ≡ id ∷ []
split_on-id id h = split_on-lacks 47 id (id-lacks_slash id h)

pub split_on-id-slash :
    (id rest : Text) → is_id id ≡ true → split_on 47 (id ++ (47 ∷ rest)) ≡ id ∷ split_on 47 rest
split_on-id-slash id rest h = split_on-lacks-append 47 id rest (id-lacks_slash id h)

-- No id is written like the literal part of the route of a batch.
pub text_eq-batch : (id : Text) → is_id id ≡ true → text_eq (codes "batch") id ≡ false
unfolding is_id id_char text_eq
text_eq-batch [] h = refl
text_eq-batch (c ∷ []) h = ground arith
text_eq-batch (c ∷ d ∷ []) h = ground arith
text_eq-batch (c ∷ d ∷ e ∷ []) h = ground arith
text_eq-batch (c ∷ d ∷ e ∷ f ∷ t) h = ground arith
