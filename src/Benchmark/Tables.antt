-- ===== src/Benchmark/Tables.antt =====
-- The tables of app/pickscore/benchmark_service.py: which benchmark row stands for a GPU.
use pickwise_v2_backend.Prelude.{String, List, [], ◌∷◌}

abbrev pub placeholders : List String
placeholders = "unknown" ∷ "n/a" ∷ "none" ∷ "-" ∷ []

abbrev pub apple_gpu_equivalent : List (String × String)
apple_gpu_equivalent =
    ("40 core gpu", "GeForce RTX 5070 Ti Laptop GPU")
    ∷ ("20 core gpu", "GeForce RTX 4060 Laptop GPU")
    ∷ ("12 core gpu", "Intel Arc B390 GPU")
    ∷ ("10 core gpu", "Qualcomm Adreno X2-90 GPU")
    ∷ ("8 core gpu", "Intel Arc 140T GPU")
    ∷ ("32 core gpu", "GeForce RTX 5070 Laptop GPU")
    ∷ ("16 core gpu", "GeForce RTX 5050 Laptop GPU")
    ∷ ("5 core gpu", "Intel UHD Graphics")
    ∷ []

abbrev pub integrated_gpu_by_cpu : List (String × String)
integrated_gpu_by_cpu =
    ("core ultra 7 255h", "Intel Arc 140T GPU")
    ∷ ("core ultra 9 285h", "Intel Arc 140T GPU")
    ∷ ("core ultra 5 225h", "Intel Arc 130T GPU")
    ∷ ("core ultra 7 256v", "Intel Arc 140V GPU")
    ∷ ("core ultra 7 258v", "Intel Arc 140V GPU")
    ∷ ("core ultra 5 226v", "Intel Arc 130V GPU")
    ∷ ("core ultra 7 165h", "Intel Arc")
    ∷ ("core ultra 5 125h", "Intel Arc")
    ∷ ("core ultra x9 388h", "Intel Arc B390 GPU")
    ∷ ("core ultra 7 358h", "Intel Arc B390 GPU")
    ∷ ("core ultra 9 386h", "Intel Graphics")
    ∷ ("core ultra 7 355", "Intel Graphics")
    ∷ ("core ultra 5 325", "Intel Graphics")
    ∷ ("core ultra 5 322", "Intel Graphics")
    ∷ ("core ultra 7 356h", "Intel Graphics")
    ∷ ("core ultra 7 255u", "Intel Graphics")
    ∷ ("core ultra 5 225u", "Intel Graphics")
    ∷ ("core ultra 5 115u", "Intel Graphics")
    ∷ ("core 7 150u", "Intel Iris Xe")
    ∷ ("core 5 120u", "Intel Iris Xe")
    ∷ ("core i7-1355u", "Intel Iris Xe")
    ∷ ("core i5-1335u", "Intel Iris Xe")
    ∷ ("core i7-1370p", "Intel Iris Xe")
    ∷ ("core 3 100u", "Intel Graphics")
    ∷ ("core i7-13620h", "Intel UHD Graphics")
    ∷ ("core i5-13420h", "Intel UHD Graphics")
    ∷ ("core 5 210h", "Intel UHD Graphics")
    ∷ ("core 7 240h", "Intel UHD Graphics")
    ∷ ("intel n100", "Intel UHD Graphics")
    ∷ ("intel n150", "Intel UHD Graphics")
    ∷ ("n355", "Intel UHD Graphics")
    ∷ ("n4500", "Intel UHD Graphics")
    ∷ ("ryzen ai 9 hx 370", "Radeon 890M")
    ∷ ("ryzen ai max+ 395", "Radeon 8060S")
    ∷ ("ryzen ai 9 465", "Radeon 880M")
    ∷ ("ryzen ai 7 350", "Radeon 860M")
    ∷ ("ryzen ai 7 445", "Radeon 840M")
    ∷ ("ryzen ai 5 430", "Radeon 840M")
    ∷ ("ryzen ai 5 330", "Radeon 820M")
    ∷ ("ryzen 5 150", "Radeon 660M")
    ∷ ("ryzen ai 5 435", "Radeon 840M")
    ∷ ("ryzen ai 7 pro 450", "Radeon 860M")
    ∷ ("ryzen ai max pro 385", "Radeon 8050S")
    ∷ ("ryzen 5 pro 230", "Radeon 760M")
    ∷ ("ryzen 7 7730u", "Ryzen 7 7730U with Radeon Graphics")
    ∷ ("ryzen 5 7530u", "Ryzen 5 7530U with Radeon Graphics")
    ∷ ("ryzen 5 7430u", "Ryzen 5 7430U with Radeon Graphics")
    ∷ ("ryzen 5 7520u", "Radeon 610M")
    ∷ ("ryzen 3 7320u", "Radeon 610M")
    ∷ ("ryzen 5 220", "Radeon 740M")
    ∷ ("ryzen 5 7535hs", "Radeon 660M")
    ∷ ("athlon silver 7120u", "Radeon 610M")
    ∷ ("snapdragon x x1 26 100", "Qualcomm Adreno X1-45 GPU")
    ∷ ("snapdragon x plus x1p 42 100", "Qualcomm Adreno X1-45 GPU")
    ∷ ("snapdragon x elite x1e 78 100", "Qualcomm Adreno X1-85 GPU")
    ∷ ("snapdragon x2 elite", "Qualcomm Adreno X2-90 GPU")
    ∷ []

abbrev pub gpu_variant_overrides : List (String × String)
gpu_variant_overrides = ("geforce rtx 3050", "GeForce RTX 3050 4GB Laptop GPU") ∷ []
