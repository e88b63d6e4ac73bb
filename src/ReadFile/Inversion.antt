-- ===== src/ReadFile/Inversion.antt =====
-- What a step of `ReadRepoFile` passed when the whole returns a response.
use code_iq.Base.{◌≡◌, refl, Bool, true, false, Option, none, some}
use code_iq.ReadFile.{ReadError, Result, ok, err, ReadFileResponse, unless, try, then_respond}

pub unless-ok :
    {A : Type 0} (bad : Bool) (e : ReadError) (rest : Result A) (a : A)
    → unless bad e rest ≡ ok a
    → (bad ≡ false) × (rest ≡ ok a)
unless-ok true e rest a h = cc
unless-ok false e rest a h = (refl, h)

pub try-ok :
    {A B : Type 0} (o : Option A) (e : ReadError) (rest : A → Result B) (b : B)
    → try o e rest ≡ ok b
    → (a : A) × (o ≡ some a) × (rest a ≡ ok b)
try-ok none e rest b h = cc
try-ok (some a) e rest b h = (a, refl, h)

pub then_respond-ok :
    {A : Type 0} (f : A → ReadFileResponse) (r : Result A) (resp : ReadFileResponse)
    → then_respond f r ≡ ok resp
    → (a : A) × (r ≡ ok a) × (ok (f a) ≡ ok resp)
then_respond-ok f (ok a) resp h = (a, refl, h)
then_respond-ok f (err e) resp h = cc
